-- ===== src/FileStore.antt =====
-- server/src/store/file_store.rs: the store that keeps its data as JSON files, its state and how it
-- saves it. The disk is a part of the state. Printing and parsing JSON is done by `serde_json`.
pub mod Atomic
pub mod Saving
pub mod Mirror
pub mod Commands
pub mod Consistent
pub mod Entries
pub mod Directories
pub mod Reopening
pub mod Blocking
pub mod Blocked
pub mod Lost
pub mod Refinement
pub mod Pages
pub mod Loading
pub mod Calls
pub mod Apply
use Prim.Native.String.{◌++◌}
use context_first_docs.Prelude.{ℕ, String, Option, List, Bool, true, false, Result, ok, err}
use context_first_docs.Prelude.Map.{Map}
use context_first_docs.Types.Node.{ContextNode, key}
use context_first_docs.Types.Proposal.{Proposal, Review}
use context_first_docs.Types.Audit.{AuditEvent}
use context_first_docs.Store.{StoreError, internal}
use context_first_docs.Disk.{
  FilePath, Disk, Io, join, with_extension, create_dir_all, write, rename,
}

-- `serde_json` at one type: `to_string_pretty`, and `from_str` without its message.
pub record Format (A : Type 0) : Type 0 where
  pub print : A → Result String String
  pub parse : String → Option A

pub record Codec : Type 0 where
  pub node : Format ContextNode
  pub proposal : Format Proposal
  pub reviews : Format (List Review)
  pub audit : Format (List AuditEvent)
  pub revision : Format ℕ

pub record FileStore : Type 0 where
  pub root : String
  pub nodes : Map ContextNode
  pub proposals : Map Proposal
  pub reviews : Map (List Review)
  pub audit_log : List AuditEvent
  pub revision_counter : ℕ
  pub disk : Disk

abbrev pub nodes_dir : String → String
nodes_dir root = root ++ "/nodes"

abbrev pub proposals_dir : String → String
proposals_dir root = root ++ "/proposals"

abbrev pub reviews_dir : String → String
reviews_dir root = root ++ "/reviews"

abbrev pub audit_file : String → FilePath
audit_file root = record { dir = root; name = "audit.json" }

abbrev pub revision_file : String → FilePath
revision_file root = record { dir = root; name = "revision.json" }

-- A call on the disk with the errors of a store. What it wrote before an error stays.
abbrev pub Step : Type 0 → Type 0
Step A = Disk → Result StoreError A × Disk

abbrev pub pure : {A : Type 0} → A → Step A
pure a d = (ok a, d)

abbrev pub then_step :
    {A B : Type 0} → Result StoreError A × Disk → (A → Step B) → Result StoreError B × Disk
then_step (err e, d) next = (err e, d)
then_step (ok a, d) next = next a d

infixl 5 ◌>>=◌ ◌>>◌
abbrev pub ◌>>=◌ : {A B : Type 0} → Step A → (A → Step B) → Step B
◌>>=◌ first next d = then_step (first d) next

abbrev pub ◌>>◌ : {B : Type 0} → Step (Unit {0}) → Step B → Step B
first >> next = first >>= λ _. next

abbrev pub as_internal : {A : Type 0} → String → Result String A × Disk → Result StoreError A × Disk
as_internal what (err e, d) = (err (internal (what ++ e)), d)
as_internal what (ok a, d) = (ok a, d)

-- `map_err(|e| StoreError::Internal(format!("{what}{e}")))`
abbrev pub or_internal : {A : Type 0} → String → Io A → Step A
or_internal what io d = as_internal what (io d)

abbrev pub printed : {A : Type 0} → Result String A → Step A
printed r d = as_internal "" (r, d)

-- Write to a temporary file, then rename it.
unfoldable pub atomic_write : FilePath → String → Step (Unit {0})
atomic_write path content = do
  or_internal "mkdir: " (create_dir_all path.dir)
  or_internal "write tmp: " (write (with_extension "tmp" path) content)
  or_internal "rename: " (rename (with_extension "tmp" path) path)

abbrev pub json_file : String → String → FilePath
json_file dir stem = join dir (stem ++ ".json")

abbrev pub save : {A : Type 0} → Format A → FilePath → A → Step (Unit {0})
save format path a = do text ← printed (format.print a); atomic_write path text

module _ (codec : Codec) (root : String) where
  unfoldable pub save_node : ContextNode → Step (Unit {0})
  save_node n = save codec.node (json_file (nodes_dir root) (key n.id)) n

  unfoldable pub save_proposal : Proposal → Step (Unit {0})
  save_proposal p = save codec.proposal (json_file (proposals_dir root) p.id) p

  unfoldable pub save_reviews : String → List Review → Step (Unit {0})
  save_reviews id rs = save codec.reviews (json_file (reviews_dir root) id) rs

  unfoldable pub save_audit_log : List AuditEvent → Step (Unit {0})
  save_audit_log log = save codec.audit (audit_file root) log

-- What a call ends in: a result, or never, since it waits for a lock that it holds itself. (Where
-- the lock detects this, `read` panics instead.)
pub data Answer (A : Type 0) : Type 0 where
  returned : Result StoreError A → Answer A
  blocked : Answer A

-- `save_revision`, which takes the read lock of the counter, by a caller that may hold its write
-- lock
unfoldable pub save_revision : Codec → (held : Bool) → FileStore → Answer (Unit {0}) × Disk
save_revision codec true s = (blocked, s.disk)
save_revision codec false s =
    let (r, d) = save codec.revision (revision_file s.root) s.revision_counter s.disk in
    (returned r, d)
