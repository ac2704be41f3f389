-- ===== src/FileStore/Refinement.antt =====
-- server/src/store/file_store.rs against in_memory.rs: the calls that do the same to what is in
-- memory.
use context_first_docs.Prelude.{
  String, Option, none, some, ◌≡◌, refl, arith, ◌==◌, ok, Bool-cases, Option-cases, inl, inr,
  Result-cases,
}
use context_first_docs.Prelude.Map
use context_first_docs.Types.Proposal.{Proposal, ProposalStatus, status_eq}
use context_first_docs.Types.Audit.{AuditEvent}
use context_first_docs.Store.{InMemoryStore}
use context_first_docs.Store.Proposals
use context_first_docs.Store.AuditLog
use context_first_docs.Store.Commands as Memory
use context_first_docs.Runtime.{Runtime}
use context_first_docs.FileStore.{Codec, FileStore, save_proposal}
use context_first_docs.FileStore.Calls
use context_first_docs.FileStore.Commands.{
  Command, create_proposal, update_proposal, submit_review, withdraw_proposal, append_audit, reset,
  execute,
}

-- What a file store has in memory, as an in-memory store.
abbrev pub memory : FileStore → InMemoryStore
memory s = record {
  nodes = s.nodes;
  proposals = s.proposals;
  reviews = s.reviews;
  revision_counter = s.revision_counter;
  audit_log = s.audit_log;
}

-- The calls that both stores mean alike. A review decides only in the in-memory store, and a PATCH
-- sets more there.
abbrev pub in_both : Command → Option Memory.Command
in_both (create_proposal p) = some (Memory.create_proposal p)
in_both (withdraw_proposal id) = some (Memory.withdraw_proposal id)
in_both (append_audit e) = some (Memory.append_audit e)
in_both reset = some Memory.reset
in_both _ = none

create_refines :
    (codec : Codec) (p : Proposal) (s : FileStore)
    → (Calls.create_proposal codec p s).0 ≡ ok tt
    → Proposals.create_proposal p (memory s) ≡ (ok tt, memory (Calls.create_proposal codec p s).1)
unfolding Calls.create_proposal Proposals.create_proposal
create_refines codec p s good = elim (Bool-cases (Map.contains_key p.id s.proposals)) [
  | inl old ↦ absurd (ground arith)
  | inr new ↦ elim (Result-cases (save_proposal codec s.root p s.disk).0) [
    | inr (e, bad) ↦ absurd (ground arith)
    | inl (done, saved) ↦ ground arith
  ]
]

withdraw_refines :
    (codec : Codec) (id : String) (s : FileStore)
    → (Calls.withdraw_proposal codec id s).0 ≡ ok tt
    → Proposals.withdraw_proposal id (memory s)
      ≡ (ok tt, memory (Calls.withdraw_proposal codec id s).1)
unfolding Calls.withdraw_proposal Proposals.withdraw_proposal
withdraw_refines codec id s good = elim (Option-cases (Map.get id s.proposals)) [
  | inl missing ↦ absurd (ground arith)
  | inr (p, there) ↦ elim (Bool-cases (p.status == ProposalStatus.«open»)) [
    | inr other ↦ absurd (ground arith)
    | inl is ↦ ground arith
  ]
]

append_refines :
    (codec : Codec) (e : AuditEvent) (s : FileStore)
    → AuditLog.append_audit e (memory s) ≡ (ok tt, memory (Calls.append_audit codec e s).1)
unfolding Calls.append_audit AuditLog.append_audit
append_refines codec e s = refl

reset_refines : (s : FileStore) → AuditLog.reset (memory s) ≡ (ok tt, memory (Calls.reset s).1)
unfolding Calls.reset AuditLog.reset
reset_refines s = refl

-- Creating and withdrawing a proposal, recording an event and a reset, where they succeed on the
-- file store, do in the in-memory store with the same content the same, and succeed there.
pub execute_refines :
    (codec : Codec) (rt : Runtime) (c : Command) (m : Memory.Command) (s : FileStore)
    → in_both c ≡ some m
    → (execute codec c s).0 ≡ ok tt
    → Memory.execute rt m (memory s) ≡ (ok tt, memory (execute codec c s).1)
unfolding execute Memory.execute
execute_refines codec rt (create_proposal p) m s both good =
    let is : m ≡ Memory.create_proposal p = ground arith in rw is (create_refines codec p s good)
execute_refines codec rt (update_proposal id updates) m s both good = cc
execute_refines codec rt (submit_review r) m s both good = cc
execute_refines codec rt (withdraw_proposal id) m s both good =
    let is : m ≡ Memory.withdraw_proposal id = ground arith in
    rw is (withdraw_refines codec id s good)
execute_refines codec rt (append_audit e) m s both good =
    let is : m ≡ Memory.append_audit e = ground arith in rw is (append_refines codec e s)
execute_refines codec rt reset m s both good =
    let is : m ≡ Memory.reset = ground arith in rw is (reset_refines s)
