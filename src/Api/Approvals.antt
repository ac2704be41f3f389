-- ===== src/Api/Approvals.antt =====
-- What one accepting review does: `submit_review` of server/src/api/routes.rs over the in-memory
-- store.
use mathlib.Core.Path.{subst}
use context_first_docs.Prelude.{
  String, none, some, List, [], ◌∷◌, ◌++◌, ◌≡◌, ◌≢◌, ◌⊎◌, refl, ap, arith, Bool, true, false,
  string_eq, eq_refl, any, unwrap_or, ok, inl, inr,
}
use context_first_docs.Prelude.Map
use context_first_docs.Prelude.Map.{get-insert, get-adjust}
use context_first_docs.Types.Proposal.{Proposal, ProposalStatus, accepted, Review, accept}
use context_first_docs.Runtime.{Runtime}
use context_first_docs.Policy.{PolicyConfig}
use context_first_docs.Policy.Review.{rejects, evaluate_on_review}
use context_first_docs.Auth.{ActorContext, agent, reviewer, has_role, actor_type_beq}
use context_first_docs.Store.{InMemoryStore}
use context_first_docs.Store.Proposals
use context_first_docs.Store.Proposals.{get_review_history, review_proposal}
use context_first_docs.Store.Proposals.Frame.{with_proposal-ok}
use context_first_docs.Store.AuditLog.{append_audit}
use context_first_docs.Store.Commands.Moves.{status_of}
use context_first_docs.Store.Commands.Patch.{update_proposal-accepted}
use context_first_docs.Store.Interface.{in_memory}
use context_first_docs.Types.Audit.{success, review_submitted}
use context_first_docs.Api.{AppState, event_of, publish_event}
use context_first_docs.Api.Reviews.{evaluate, reviewed, submit_review}

undecided-or-accepted :
    (p : Proposal) (reviews : List Review) (policies : PolicyConfig)
    → any rejects reviews ≡ false
    → ((evaluate_on_review p reviews policies).0 ≡ some accepted)
      ⊎ ((evaluate_on_review p reviews policies).0 ≡ none)
unfolding evaluate_on_review
undecided-or-accepted p reviews policies h = ground arith

any-append :
    {A : Type 0} (f : A → Bool) (xs : List A) (x : A)
    → any f xs ≡ false
    → f x ≡ false
    → any f (xs ++ x ∷ []) ≡ false
any-append f [] x h k = ground arith
any-append f (y ∷ ys) x h k = ground (arith, any-append f ys x)

submitted :
    (r : Review) (s : InMemoryStore) {p : Proposal}
    → Map.get r.proposal_id s.proposals ≡ some p
    → p.status ≡ ProposalStatus.«open»
    → r.action ≡ accept
    → Proposals.submit_review r s ≡ (
      ok tt,
      record s {
        proposals = Map.adjust r.proposal_id (λ _. record p { status = accepted }) s.proposals;
        reviews =
            Map.insert r.proposal_id
              (unwrap_or (Map.get r.proposal_id s.reviews) [] ++ r ∷ [])
              s.reviews;
      },
    )
unfolding Proposals.submit_review
submitted r s {p} found was act =
    let change : review_proposal r p ≡ ok (record p { status = accepted }) = ground arith in
    rw (Proposals.submit_review, with_proposal-ok r.proposal_id (review_proposal r) s found change)
      refl

module _ (rt : Runtime) (policies : PolicyConfig) (actor : ActorContext) (id : String) where
  evaluate-accepted :
      (p : Proposal) (s : AppState InMemoryStore)
      → Map.get id s.store.proposals ≡ some p
      → p.status ≡ accepted
      → any rejects (get_review_history id s.store) ≡ false
      → ((evaluate in_memory rt policies actor id (some p) s).0 ≡ ok tt)
        × (status_of id (evaluate in_memory rt policies actor id (some p) s).1.store
            ≡ some accepted)
  unfolding append_audit
  evaluate-accepted p s found was calm =
      elim (undecided-or-accepted p (get_review_history id s.store) policies calm) [
        | inl decided ↦
            (rw decided refl, rw decided (rw (update_proposal-accepted rt id s.store found) refl))
        | inr open_still ↦ (rw open_still refl, rw open_still (rw found (ap some was)))
      ]

module _ (rt : Runtime) (policies : PolicyConfig) (actor : ActorContext) (r : Review)
    (s : AppState InMemoryStore) where
  let_in :
      has_role actor reviewer ≡ true
      → actor.actor_type ≢ agent
      → submit_review in_memory rt policies actor r.proposal_id r s
        ≡ reviewed in_memory rt policies actor r.proposal_id r s
  unfolding submit_review
  let_in high person =
      let human : actor_type_beq actor.actor_type agent ≡ false = ground arith in
      rw (high, human, eq_refl) refl

  -- The state in which the policy is evaluated.
  abbrev after_review : Proposal → AppState InMemoryStore
  after_review p = record s {
    store = record s.store {
      proposals = Map.adjust r.proposal_id (λ _. record p { status = accepted }) s.store.proposals;
      reviews =
          Map.insert r.proposal_id (unwrap_or (Map.get r.proposal_id s.store.reviews) [] ++ r ∷ [])
            s.store.reviews;
      audit_log =
          s.store.audit_log ++ event_of rt 0 actor review_submitted r.proposal_id success ∷ [];
    };
    published = (publish_event rt "review_submitted" r.proposal_id actor s).1.published;
  }

  reviewed-evaluate :
      {p : Proposal}
      → Map.get r.proposal_id s.store.proposals ≡ some p
      → p.status ≡ ProposalStatus.«open»
      → r.action ≡ accept
      → reviewed in_memory rt policies actor r.proposal_id r s
        ≡ evaluate in_memory rt policies actor r.proposal_id
            (some (record p { status = accepted }))
            (after_review p)
  unfolding append_audit Proposals.get_proposal
  reviewed-evaluate {p} found was act =
      rw (submitted r s.store found was act) (rw (get-adjust, eq_refl, found) refl)

  own-accepts :
      (p : Proposal)
      → has_role actor reviewer ≡ true
      → actor.actor_type ≢ agent
      → r.action ≡ accept
      → p.status ≡ ProposalStatus.«open»
      → Map.get r.proposal_id s.store.proposals ≡ some p
      → any rejects (get_review_history r.proposal_id s.store) ≡ false
      → ((submit_review in_memory rt policies actor r.proposal_id r s).0 ≡ ok tt)
        × (status_of r.proposal_id
              (submit_review in_memory rt policies actor r.proposal_id r s).1.store
            ≡ some accepted)
  unfolding get_review_history
  own-accepts p high person act was found calm =
      rw (let_in high person, reviewed-evaluate found was act)
        (evaluate-accepted rt policies actor r.proposal_id (record p { status = accepted })
          (after_review p) (rw (get-adjust, eq_refl, found) refl) refl
          (rw (get-insert, eq_refl)
            (any-append rejects (get_review_history r.proposal_id s.store) r calm (ground arith))))

-- For a reviewer who is no agent, an accepting review of an open proposal, none of whose reviews
-- rejects, succeeds and leaves the proposal accepted whatever the policies ask for.
pub submit_review-accepts :
    (rt : Runtime) (policies : PolicyConfig) (actor : ActorContext) (id : String) (r : Review)
    (s : AppState InMemoryStore) (p : Proposal)
    → has_role actor reviewer ≡ true
    → actor.actor_type ≢ agent
    → r.proposal_id ≡ id
    → r.action ≡ accept
    → p.status ≡ ProposalStatus.«open»
    → Map.get id s.store.proposals ≡ some p
    → any rejects (get_review_history id s.store) ≡ false
    → ((submit_review in_memory rt policies actor id r s).0 ≡ ok tt)
      × (status_of id (submit_review in_memory rt policies actor id r s).1.store ≡ some accepted)
submit_review-accepts rt policies actor id r s p high person same act was found calm =
    subst
      (λ k.
        Map.get k s.store.proposals ≡ some p
        → any rejects (get_review_history k s.store) ≡ false
        → ((submit_review in_memory rt policies actor k r s).0 ≡ ok tt)
          × (status_of k (submit_review in_memory rt policies actor k r s).1.store ≡ some accepted))
      same (own-accepts rt policies actor r s p high person act was) found calm
