-- ===== src/Store.antt =====
-- server/src/store/context_store.rs and in_memory.rs: the errors of a store, the state of the
-- in-memory one, and its operations in the modules below.
pub mod Apply
pub mod Proposals
pub mod Queries
pub mod AuditLog
pub mod Conflicts
pub mod Merge
pub mod Interface
pub mod Commands
use context_first_docs.Prelude.{ℕ, String, List, [], Result}
use context_first_docs.Prelude.Map.{Map}
use context_first_docs.Types.Node.{ContextNode}
use context_first_docs.Types.Proposal.{Proposal, Review}
use context_first_docs.Types.Audit.{AuditEvent}

pub data StoreError : Type 0 where
  not_found conflict invalid internal : String → StoreError

-- Each lock guards one field.
pub record InMemoryStore : Type 0 where
  pub nodes : Map ContextNode
  pub proposals : Map Proposal
  pub reviews : Map (List Review)
  pub revision_counter : ℕ
  pub audit_log : List AuditEvent

-- `InMemoryStore::new`
abbrev pub new : InMemoryStore
new = record { nodes = []; proposals = []; reviews = []; revision_counter = 0; audit_log = [] }

-- A method that may change the store `S`: its result, and the store that it leaves.
abbrev pub Method : Type 0 → Type 0 → Type 0
Method S A = S → Result StoreError A × S
