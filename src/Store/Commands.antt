-- ===== src/Store/Commands.antt =====
-- Sequences of calls of the in-memory store: its methods that change state, as commands. The lock
-- sections of one call are not interleaved with another's.
pub mod Safety
pub mod Moves
pub mod Lifecycle
pub mod Log
pub mod Patch
pub mod Interleaved
use context_first_docs.Prelude.{String, List, [], ◌∷◌}
use context_first_docs.Types.Json.{Json}
use context_first_docs.Types.Proposal.{Proposal, Comment, Review}
use context_first_docs.Types.Audit.{AuditEvent}
use context_first_docs.Runtime.{Runtime}
use context_first_docs.Store.{InMemoryStore, Method}
use context_first_docs.Store.Apply
use context_first_docs.Store.Proposals
use context_first_docs.Store.AuditLog

pub data Command : Type 0 where
  create_proposal : Proposal → Command
  update_proposal : (id : String) → Json → Command
  submit_review : Review → Command
  apply_proposal : (now id applied_by : String) → Command
  withdraw_proposal : (id : String) → Command
  add_proposal_comment : (id : String) → Comment → Command
  reset : Command
  append_audit : AuditEvent → Command

-- Only the clock of the runtime changes between calls.
abbrev pub at_time : Runtime → String → Runtime
at_time rt now = record rt { now = now }

unfoldable pub execute : Runtime → Command → Method InMemoryStore (Unit {0})
execute rt (create_proposal p) = Proposals.create_proposal p
execute rt (update_proposal id updates) = Proposals.update_proposal rt id updates
execute rt (submit_review r) = Proposals.submit_review r
execute rt (apply_proposal now id applied_by) = Apply.apply_proposal (at_time rt now) id applied_by
execute rt (withdraw_proposal id) = Proposals.withdraw_proposal id
execute rt (add_proposal_comment id c) = Proposals.add_proposal_comment id c
execute rt reset = AuditLog.reset
execute rt (append_audit e) = AuditLog.append_audit e

-- The store after a sequence of calls, whether they succeed or not.
unfoldable pub run : Runtime → List Command → InMemoryStore → InMemoryStore
unfolding execute
run rt [] s = s
run rt (c ∷ cs) s = run rt cs (execute rt c s).1

-- An invariant of every call is one of every sequence.
pub run_induction :
    (P : InMemoryStore → Type 0) (rt : Runtime)
    → ((c : Command) (s : InMemoryStore) → P s → P (execute rt c s).1)
    → (cs : List Command) (s : InMemoryStore) → P s
    → P (run rt cs s)
unfolding run
run_induction P rt keep [] s h = h
run_induction P rt keep (c ∷ cs) s h = run_induction P rt keep cs (execute rt c s).1 (keep c s h)
