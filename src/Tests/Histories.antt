-- ===== src/Tests/Histories.antt =====
-- Sequences of calls of the store.
use context_first_docs.Prelude.{ℕ, ◌*◌, some, List, [], ◌∷◌, ◌≡◌, ◌⊎◌, refl}
use context_first_docs.Prelude.Map
use context_first_docs.Types.Audit.{AuditEvent, proposal_created, success, new_event}
use context_first_docs.Types.Proposal.{ProposalStatus, applied}
use context_first_docs.Store.{new}
use context_first_docs.Store.Apply.{commit, last_review_id}
use context_first_docs.Store.Apply as Applying
use context_first_docs.Store.Proposals.{update_proposal}
use context_first_docs.Store.Commands.{
  Command, create_proposal, submit_review, apply_proposal, append_audit, run, execute,
}
use context_first_docs.Store.Commands.Safety.{AllGenuine, run-AllGenuine}
use context_first_docs.Store.Commands.Interleaved.{interleave-AllGenuine}
use context_first_docs.Store.Apply.Sections.{called, World, interleave}
use context_first_docs.Store.Commands.Moves.{status_of, Move}
use context_first_docs.Store.Commands.Lifecycle.{SubmittedClosed, execute-Move, run-terminal}
use context_first_docs.Store.Commands.Patch.{to_accepted, apply_proposal-update_proposal}
use context_first_docs.Store.Interface.{in_memory}
use context_first_docs.Retention.{
  RetentionAction, archive, RetentionConfig, default_interval, spawn_retention_task,
}
use context_first_docs.Retention.Untouched.{OnlyLogged, spawn_retention_task-OnlyLogged}
use context_first_docs.Tests.Data.{rt, waiting, finished, review, store}

abbrev event : AuditEvent
event = new_event rt 0 "ann" "human" proposal_created "waiting" success

abbrev history : List Command
history =
    create_proposal waiting
    ∷ append_audit event
    ∷ submit_review review
    ∷ apply_proposal "t3" "waiting" "eve"
    ∷ []

looked_up : Unit {0}
unfolding Map.get
looked_up = tt

run-AllGenuine_example : AllGenuine rt (run rt history new).nodes
run-AllGenuine_example = run-AllGenuine rt history

-- Two clients apply a proposal that is created and accepted.
abbrev pair_of_clients : World
pair_of_clients = record {
  store = run rt (create_proposal waiting ∷ submit_review review ∷ []) new;
  clients =
      record { id = "waiting"; applied_by = "eve"; phase = called }
      ∷ record { id = "waiting"; applied_by = "bob"; phase = called }
      ∷ [];
}

abbrev schedule : List ℕ
schedule = 0 ∷ 1 ∷ 0 ∷ 1 ∷ 0 ∷ 0 ∷ 1 ∷ 0 ∷ 1 ∷ 1 ∷ []

interleave-AllGenuine_example : AllGenuine rt (interleave rt schedule pair_of_clients).store.nodes
interleave-AllGenuine_example =
    interleave-AllGenuine rt schedule pair_of_clients
      (run-AllGenuine rt (create_proposal waiting ∷ submit_review review ∷ []))

waiting_is_open : status_of "waiting" store ≡ some ProposalStatus.«open»
unfolding looked_up
waiting_is_open = refl

finished_found : Map.get "finished" store.proposals ≡ some finished
unfolding looked_up
finished_found = refl

finished_is_applied : status_of "finished" store ≡ some applied
unfolding looked_up
finished_is_applied = refl

execute-Move_example :
    Move
      (status_of "waiting" store)
      (status_of "waiting" (execute rt (submit_review review) store).1)
    ⊎ SubmittedClosed rt (submit_review review) store "waiting"
execute-Move_example = execute-Move rt (submit_review review) store "waiting" tt

run-terminal_example : status_of "finished" (run rt history store) ≡ some applied
run-terminal_example =
    run-terminal rt history store "finished" applied (tt, (tt, (tt, (tt, tt)))) tt
      finished_is_applied

patched_stays_applied :
    status_of "finished" (update_proposal rt "waiting" to_accepted store).1 ≡ some applied
unfolding looked_up update_proposal Map.adjust
patched_stays_applied = refl

apply_proposal-update_proposal_example :
    Applying.apply_proposal rt "finished" "eve" (update_proposal rt "finished" to_accepted store).1
    ≡ commit rt "finished" "eve"
        (
          finished.operations,
          last_review_id "finished" (update_proposal rt "finished" to_accepted store).1,
        )
        (update_proposal rt "finished" to_accepted store).1
apply_proposal-update_proposal_example =
    apply_proposal-update_proposal rt "finished" "eve" store finished_found

abbrev yearly : RetentionConfig
yearly = record {
  rules =
      record { resource_type = "proposal"; retention_days = 365; action = RetentionAction.delete }
      ∷ record { resource_type = "audit"; retention_days = 30; action = archive }
      ∷ [];
  check_interval_secs = default_interval;
}

spawn_retention_task-OnlyLogged_example :
    OnlyLogged (3 * 2) store (spawn_retention_task in_memory rt yearly 3 store)
spawn_retention_task-OnlyLogged_example = spawn_retention_task-OnlyLogged rt yearly 3 store
