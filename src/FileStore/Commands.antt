-- ===== src/FileStore/Commands.antt =====
-- Sequences of calls of the file store of server/src/store/file_store.rs but `apply_proposal`.
pub mod Clearing
pub mod Durable
use context_first_docs.Prelude.{String, List, [], ◌∷◌, Result, ok, ◌≡◌}
use context_first_docs.Types.Json.{Json}
use context_first_docs.Types.Proposal.{Proposal, Review}
use context_first_docs.Types.Audit.{AuditEvent}
use context_first_docs.Store.{StoreError, Method}
use context_first_docs.Disk.Names.{Plain}
use context_first_docs.FileStore.{Codec, FileStore}
use context_first_docs.FileStore.Calls

pub data Command : Type 0 where
  create_proposal : Proposal → Command
  update_proposal : (id : String) → Json → Command
  submit_review : Review → Command
  withdraw_proposal : (id : String) → Command
  append_audit : AuditEvent → Command
  reset : Command

unfoldable pub execute : Codec → Command → Method FileStore (Unit {0})
execute codec (create_proposal p) = Calls.create_proposal codec p
execute codec (update_proposal id updates) = Calls.update_proposal codec id updates
execute codec (submit_review r) = Calls.submit_review codec r
execute codec (withdraw_proposal id) = Calls.withdraw_proposal codec id
execute codec (append_audit e) = Calls.append_audit codec e
execute codec reset = Calls.reset

-- The names under which a call makes a new file.
abbrev pub HasPlainNames : Command → Type 0
HasPlainNames (create_proposal p) = Plain p.id
HasPlainNames (submit_review r) = Plain r.proposal_id
HasPlainNames _ = Unit

-- The stores that calls reach which succeed.
pub data Reach (codec : Codec) (s : FileStore) : FileStore → Type 0 where
  here : Reach codec s s
  call :
      {t : FileStore}
      → Reach codec s t
      → (c : Command) → HasPlainNames c
      → (execute codec c t).0 ≡ ok tt
      → Reach codec s (execute codec c t).1
