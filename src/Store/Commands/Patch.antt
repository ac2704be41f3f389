-- ===== src/Store/Commands/Patch.antt =====
-- `update_proposal` of server/src/store/in_memory.rs and the status of a proposal.
use context_first_docs.Prelude.{String, Option, some, ◌≡◌, refl, ap, string_eq, eq_refl, ok}
use context_first_docs.Prelude.Map
use context_first_docs.Prelude.Map.{get-adjust}
use context_first_docs.Types.Json.{Json, str, object}
use context_first_docs.Types.Proposal.{Proposal, ProposalStatus, accepted, applied}
use context_first_docs.Runtime.{Runtime}
use context_first_docs.Store.{InMemoryStore}
use context_first_docs.Store.Apply.{apply_proposal, commit, last_review_id}
use context_first_docs.Store.Apply.Outcome.{apply_proposal-accepted}
use context_first_docs.Store.Proposals.{patch, update_proposal}
use context_first_docs.Store.Proposals.Status.{patch-applied}
use context_first_docs.Store.Proposals.Frame.{with_proposal-ok}
use context_first_docs.Store.Commands.Moves.{status_of, with_proposal-status}

some-status :
    {st : ProposalStatus} → ◌≡◌ {A = Option ProposalStatus} (some st) (some applied) → st ≡ applied
some-status e = cc

-- A PATCH never makes a proposal applied.
pub update_proposal-applied :
    (rt : Runtime) (id : String) (updates : Json) (s : InMemoryStore) (j : String)
    → status_of j (update_proposal rt id updates s).1 ≡ some applied
    → status_of j s ≡ some applied
unfolding update_proposal
update_proposal-applied rt id updates s j =
    with_proposal-status (λ o o'. o' ≡ some applied → o ≡ some applied) (λ o h. h) id
      (patch rt updates) s j
      (λ p p' done e. ap some (patch-applied rt updates p p' done (some-status e)))

abbrev pub to_accepted : Json
to_accepted = object "status" (str "accepted")

patch-accepted :
    (rt : Runtime) (p : Proposal) → patch rt to_accepted p ≡ ok (record p { status = accepted })
unfolding update_proposal
patch-accepted rt p = refl

-- A PATCH makes a proposal accepted whatever its status was, and no review is needed.
pub update_proposal-accepted :
    (rt : Runtime) (id : String) (s : InMemoryStore) {p : Proposal}
    → Map.get id s.proposals ≡ some p
    → Map.get id (update_proposal rt id to_accepted s).1.proposals
      ≡ some (record p { status = accepted })
unfolding update_proposal
update_proposal-accepted rt id s {p} found =
    rw (with_proposal-ok id (patch rt to_accepted) s found (patch-accepted rt p))
      (rw (get-adjust, eq_refl, found) refl)

-- After a PATCH to accepted, an application runs the operations of any proposal of the store, also
-- of one that was applied before.
pub apply_proposal-update_proposal :
    (rt : Runtime) (id by : String) (s : InMemoryStore) {p : Proposal}
    → Map.get id s.proposals ≡ some p
    → let s' = (update_proposal rt id to_accepted s).1 in
      apply_proposal rt id by s' ≡ commit rt id by (p.operations, last_review_id id s') s'
apply_proposal-update_proposal rt id by s found =
    apply_proposal-accepted rt id by (update_proposal rt id to_accepted s).1
      (update_proposal-accepted rt id s found) refl
