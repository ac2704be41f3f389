-- ===== src/FileStore/Reopening.antt =====
-- Opening server/src/store/file_store.rs again on the disk that a store has left.
use context_first_docs.Prelude.{
  String, Option, [], ◌∷◌, ◌≡◌, refl, arith, ok, Option-cases, Bool-cases, inl, inr, ◌==◌,
  string_eq, eq_iff,
}
use context_first_docs.Prelude.Map
use context_first_docs.Disk.{FilePath, Disk, find, create_dir_all}
use context_first_docs.Disk.Files.{create_dir_all-find}
use context_first_docs.Disk.Success.{create_dir_all-succeeds, read_to_string-calm}
use context_first_docs.Disk.Tidy.{create_dir_all-Tidy}
use context_first_docs.FileStore.{
  Codec, FileStore, nodes_dir, proposals_dir, reviews_dir, audit_file, revision_file,
}
use context_first_docs.FileStore.Loading.{load_file, load_from_disk, new, empty_store}
use context_first_docs.FileStore.Consistent.{Mirrors, ReadsBack, value_in, Shows-agree}
use context_first_docs.FileStore.Directories.{load_dir-Shows}
use context_first_docs.FileStore.Commands.{Reach}
use context_first_docs.FileStore.Commands.Durable.{Reach-Mirrors}

load_file-calm :
    {A : Type 0} (parse : String → Option A) (path : FilePath) (old : A) (d : Disk)
    → d.faults ≡ []
    → load_file parse path old d ≡ (ok (value_in parse old (find path d)), d)
unfolding load_file Map.contains_key
load_file-calm parse path old d calm = elim (Option-cases (find path d)) [
  | inl missing ↦ ground arith
  | inr (text, there) ↦ ground (arith, read_to_string-calm d calm path there)
]

-- The store `t` has all that `s` has.
pub record Reopened (s t : FileStore) : Type 0 where
  pub nodes : (k : String) → Map.get k t.nodes ≡ Map.get k s.nodes
  pub proposals : (k : String) → Map.get k t.proposals ≡ Map.get k s.proposals
  pub reviews : (k : String) → Map.get k t.reviews ≡ Map.get k s.reviews
  pub audit_log : t.audit_log ≡ s.audit_log
  pub revision_counter : t.revision_counter ≡ s.revision_counter

-- A disk without faults that shows a store is opened as that store.
pub new-Reopened :
    (codec : Codec) (s : FileStore)
    → Mirrors codec s
    → s.disk.faults ≡ []
    → (t : FileStore) × ((new codec s.root s.disk).0 ≡ ok t) × Reopened s t
unfolding new load_from_disk
new-Reopened codec s ms calm =
    let (made, calm', there) = create_dir_all-succeeds s.disk calm s.root in
    let d = (create_dir_all s.root s.disk).1 in
    let found = λ (q : FilePath). create_dir_all-find s.root q s.disk in
    let tidy = create_dir_all-Tidy s.disk ms.tidy s.root in
    let (nodes, nodes_read, nodes_same) =
      load_dir-Shows (Shows-agree d (λ k. found _) ms.nodes) tidy calm' in
    let (proposals, proposals_read, proposals_same) =
      load_dir-Shows (Shows-agree d (λ k. found _) ms.proposals) tidy calm' in
    let (reviews, reviews_read, reviews_same) =
      load_dir-Shows (Shows-agree d (λ k. found _) ms.reviews) tidy calm' in
    let audit_read = load_file-calm codec.audit.parse (audit_file s.root) [] d calm' in
    let revision_read = load_file-calm codec.revision.parse (revision_file s.root) 0 d calm' in
    let t : FileStore = record {
      root = s.root;
      nodes = nodes;
      proposals = proposals;
      reviews = reviews;
      audit_log = value_in codec.audit.parse [] (find (audit_file s.root) d);
      revision_counter = value_in codec.revision.parse 0 (find (revision_file s.root) d);
      disk = d;
    } in
    (
      t,
      ground (arith, nodes_read, proposals_read, reviews_read, audit_read, revision_read),
      record {
        nodes = nodes_same;
        proposals = proposals_same;
        reviews = reviews_same;
        audit_log = rw (found (audit_file s.root)) ms.audit;
        revision_counter = rw (found (revision_file s.root)) ms.revision;
      },
    )

-- The store that is opened on an empty directory.
abbrev pub first_store : String → FileStore
first_store root = empty_store root (record { dirs = (root, []) ∷ []; faults = [] })

pub first_store-Mirrors : (codec : Codec) (root : String) → Mirrors codec (first_store root)
unfolding Map.get
first_store-Mirrors codec root = record {
  nodes = record {
    shown = λ k some_name. ground (arith, eq_iff root (nodes_dir root));
    named = λ k a h. cc;
  };
  proposals = record {
    shown = λ k some_name. ground (arith, eq_iff root (proposals_dir root));
    named = λ k a h. cc;
  };
  reviews = record {
    shown = λ k some_name. ground (arith, eq_iff root (reviews_dir root));
    named = λ k a h. cc;
  };
  audit = ground (arith, eq_iff root root);
  revision = ground (arith, eq_iff root root);
  tidy = λ dir. elim (Bool-cases (root == dir)) [ inl here ↦ rw here tt | inr away ↦ rw away tt ];
}

-- A file store that was opened on an empty disk and has taken calls that all succeeded,
-- applications aside, is opened again from its disk with the same nodes, proposals, reviews, audit
-- log and revision, provided that what is printed parses back and that ids can name files.
pub Reach-Reopened :
    (codec : Codec)
    → ReadsBack codec
    → (root : String) (s : FileStore) → Reach codec (first_store root) s
    → (t : FileStore) × ((new codec s.root s.disk).0 ≡ ok t) × Reopened s t
Reach-Reopened codec reads root s calls =
    let (ms, calm) = Reach-Mirrors codec reads (first_store-Mirrors codec root) refl calls in
    new-Reopened codec s ms calm
