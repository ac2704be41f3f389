-- ===== src/Tests/Application.antt =====
-- Applications of proposals.
use context_first_docs.Prelude.{map, some, [], ◌∷◌, ◌≡◌, refl, err, ok, ◌+◌, ◌%◌, ◌^◌}
use context_first_docs.Prelude.Map
use context_first_docs.Types.Node.{ContextNode, key}
use context_first_docs.Types.Proposal.{accepted}
use context_first_docs.Store.{InMemoryStore, not_found}
use context_first_docs.Store.Apply.{apply_proposal, apply_operations, apply_operation}
use context_first_docs.Store.Apply.Sorting.{sort_by_order}
use context_first_docs.Store.Apply.Effects.{effects_at, apply_operations-get}
use context_first_docs.Store.Apply.Outcome.{applied_nodes, apply_proposal_idempotent}
use context_first_docs.Store.Apply.Success.{Needs, apply_proposal-succeeds}
use context_first_docs.Store.Apply.Failure.{Stopped, apply_proposal-failed}
use context_first_docs.Store.Apply.Sections.{called, returned, Client, World, interleave}
use context_first_docs.Tests.Data.{rt, node, rewrite, operations, good, torn, waiting, store}
use mathlib.Core.Option

-- The whole of an application computes.
application : Unit {0}
unfolding apply_proposal apply_operations apply_operation sort_by_order Map.get Map.insert
    Map.adjust key
application = tt

good_applies : (apply_proposal rt "good" "eve" store).0 ≡ ok tt
unfolding application
good_applies = refl

torn_fails : (apply_proposal rt "torn" "eve" store).0 ≡ err (not_found "node gone")
unfolding application
torn_fails = refl

good_found : Map.get "good" store.proposals ≡ some good
unfolding application
good_found = refl

torn_found : Map.get "torn" store.proposals ≡ some torn
unfolding application
torn_found = refl

good_succeeds : (applied_nodes rt "eve" store good).0 ≡ ok tt
unfolding application
good_succeeds = refl

apply_operations-get_example :
    Map.get "b" (applied_nodes rt "eve" store good).1
    ≡ effects_at rt rt.now "eve" "b" (sort_by_order operations) (Map.get "b" store.nodes)
apply_operations-get_example =
    apply_operations-get rt rt.now "eve" (sort_by_order operations) store.nodes "b" good_succeeds

apply_proposal_idempotent_example :
    apply_proposal rt "good" "bob" (apply_proposal rt "good" "eve" store).1
    ≡ (ok tt, (apply_proposal rt "good" "eve" store).1)
apply_proposal_idempotent_example =
    apply_proposal_idempotent rt rt "good" "eve" "bob" store good_applies

a_is_there : Needs store.nodes (rewrite "a" 1 "other")
unfolding application
a_is_there = (node "a" "zero", refl)

abbrev accepted_store : InMemoryStore
accepted_store = record store { proposals = ("waiting", record waiting { status = accepted }) ∷ [] }

accepted_found :
    Map.get "waiting" accepted_store.proposals ≡ some (record waiting { status = accepted })
unfolding application
accepted_found = refl

apply_proposal-succeeds_example : (apply_proposal rt "waiting" "eve" accepted_store).0 ≡ ok tt
apply_proposal-succeeds_example =
    apply_proposal-succeeds rt "waiting" "eve" accepted_store
      {p = record waiting { status = accepted }} accepted_found refl (a_is_there, tt)

apply_proposal-failed_example :
    Stopped rt rt.now "eve"
      (sort_by_order torn.operations)
      store.nodes
      (apply_proposal rt "torn" "eve" store).1.nodes
      (not_found "node gone")
    × ((apply_proposal rt "torn" "eve" store).1 ≡ record store {
      nodes = (apply_proposal rt "torn" "eve" store).1.nodes;
      revision_counter = (store.revision_counter + 1) % 2 ^ 64;
    })
apply_proposal-failed_example =
    apply_proposal-failed rt "torn" "eve" store torn_found refl torn_fails

-- The earlier operation of the proposal that failed was written.
torn_wrote :
    Option.map
      (λ (n : ContextNode). n.content)
      (Map.get "a" (apply_proposal rt "torn" "eve" store).1.nodes)
    ≡ some "half"
unfolding application
torn_wrote = refl

-- Two clients apply one proposal, and each passes the check before the other marks it.
abbrev two_clients : World
two_clients = record {
  store = store;
  clients =
      record { id = "good"; applied_by = "eve"; phase = called }
      ∷ record { id = "good"; applied_by = "bob"; phase = called }
      ∷ [];
}

abbrev raced : World
raced = interleave rt (0 ∷ 0 ∷ 1 ∷ 1 ∷ 0 ∷ 0 ∷ 0 ∷ 1 ∷ 1 ∷ 1 ∷ []) two_clients

-- Both calls succeed, and the operations have run twice.
both_succeed :
    map (λ (c : Client). c.phase) raced.clients ≡ returned (ok tt) ∷ returned (ok tt) ∷ []
unfolding application interleave
both_succeed = refl

applied_twice :
    Option.map (λ (n : ContextNode). n.metadata.version) (Map.get "a" raced.store.nodes) ≡ some 5
unfolding application interleave
applied_twice = refl
