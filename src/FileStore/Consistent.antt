-- ===== src/FileStore/Consistent.antt =====
-- The invariant of server/src/store/file_store.rs: the disk has what the store has in memory. A call
-- that succeeds keeps it.
pub mod Saves
use Prim.Native.String.{◌++◌}
use text.Mathlib.TextLemmas.{append_cancel_left, append-nil}
use context_first_docs.Prelude.{
  ℕ, List, String, Option, none, some, [], ◌≡◌, ◌≢◌, refl, sym, ap, ◌∙◌, arith, Bool, true, false,
  ◌&&◌, ◌==◌, string_eq, eq_iff, if◌then◌else◌, Result, ok, err, Bool-cases, Option-cases, inl, inr,
  Result-cases,
}
use context_first_docs.Prelude.Map
use context_first_docs.Prelude.Map.{Map}
use context_first_docs.Types.Node.{ContextNode, key}
use context_first_docs.Types.Proposal.{Proposal, Review}
use context_first_docs.Types.Audit.{AuditEvent}
use context_first_docs.Disk.{FilePath, Disk, find, with_extension}
use context_first_docs.Disk.Files.{same_path, is_ok}
use context_first_docs.Disk.Tidy.{Tidy}
use context_first_docs.Disk.Names.{Plain, join-json}
use context_first_docs.FileStore.{
  Format, Codec, FileStore, nodes_dir, proposals_dir, reviews_dir, audit_file, revision_file,
  json_file, save, save_proposal, save_reviews, save_audit_log, save_node,
}
use context_first_docs.FileStore.Atomic.{atomic_write-find}
use context_first_docs.FileStore.Saving.{save-ok, save-Tidy}
use context_first_docs.FileStore.Mirror.{
  Faithful, read_in, json_in, Shows, save-Shows, write-json-elsewhere,
}

abbrev pub value_in : {A : Type 0} → (String → Option A) → A → Option String → A
value_in parse old text = elim (read_in parse text) [ none ↦ old | some a ↦ a ]

pub record Mirrors (codec : Codec) (s : FileStore) : Type 0 where
  pub nodes :
      Shows codec.node.parse (λ k (n : ContextNode). key n.id) (nodes_dir s.root) s.nodes s.disk
  pub proposals :
      Shows codec.proposal.parse
        (λ k (p : Proposal). p.id)
        (proposals_dir s.root)
        s.proposals
        s.disk
  pub reviews :
      Shows codec.reviews.parse (λ k (rs : List Review). k) (reviews_dir s.root) s.reviews s.disk
  pub audit : value_in codec.audit.parse [] (find (audit_file s.root) s.disk) ≡ s.audit_log
  pub revision :
      value_in codec.revision.parse 0 (find (revision_file s.root) s.disk) ≡ s.revision_counter
  pub tidy : Tidy s.disk

-- `serde_json` reads back each of the five kinds of file.
pub record ReadsBack (codec : Codec) : Type 0 where
  pub node : Faithful codec.node
  pub proposal : Faithful codec.proposal
  pub reviews : Faithful codec.reviews
  pub audit : Faithful codec.audit
  pub revision : Faithful codec.revision

-- The directories of a store are different ones.
pub below : (root name : String) → name ≢ "" → root ++ name ≢ root
below root name some_name e =
    some_name (append_cancel_left root name "" (e ∙ sym (append-nil root)))

pub apart : (root a b : String) → a ≢ b → root ++ a ≢ root ++ b
apart root a b other e = other (append_cancel_left root a b e)

-- A table is shown by another disk with the same files.
pub Shows-agree :
    {A : Type 0} {parse : String → Option A} {key_of : String → A → String} {dir : String}
    {m : Map A} {d : Disk} (d' : Disk)
    → ((k : String) → find (json_in dir k) d' ≡ find (json_in dir k) d)
    → Shows parse key_of dir m d
    → Shows parse key_of dir m d'
Shows-agree d' same shows = record {
  shown = λ k some_name. rw same (shows.shown k some_name);
  named = shows.named;
}

pub save-elsewhere :
    {A : Type 0} (format : Format A) (dir k : String) (a : A) (d : Disk) (q : FilePath)
    → Plain k
    → dir ≢ q.dir
    → find q (save format (json_file dir k) a d).1 ≡ find q d
save-elsewhere format dir k a d q plain away = elim (Result-cases (format.print a)) [
  | inl (text, good) ↦
      rw good (rw (join-json dir k plain) (write-json-elsewhere dir k plain text d q away))
  | inr (e, bad) ↦ rw bad refl
]

pub names_differ : (a b : String) → (a == b) ≡ false → a ≢ b
names_differ a b h e = cc ((eq_iff a b).1 e)
