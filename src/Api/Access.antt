-- ===== src/Api/Access.antt =====
-- Who may change what: the checks at the head of the routes of server/src/api/routes.rs.
use context_first_docs.Prelude.{
  String, Option, ◌≡◌, refl, arith, true, false, err, Bool-cases, inl, inr,
}
use context_first_docs.Types.Json.{Json}
use context_first_docs.Types.Proposal.{Proposal, Review}
use context_first_docs.Runtime.{Runtime}
use context_first_docs.Policy.{PolicyConfig}
use context_first_docs.Auth.{
  ActorContext, agent, contributor, reviewer, applier, admin, has_role, too_low, no_agent,
}
use context_first_docs.Store.Interface.{ContextStore}
use context_first_docs.Api.{AppState, ApiError, forbidden, Handler, status_code}
use context_first_docs.Api.Proposals.{
  create_proposal, update_proposal, apply_proposal, withdraw_proposal,
}
use context_first_docs.Api.Reviews.{submit_review}
use context_first_docs.Api.Admin.{reset_store}

-- A handler that answers with 403 Forbidden and changes nothing.
pub record Refuses {S A : Type 0} (h : Handler S A) (s : AppState S) : Type 0 where
  pub error : ApiError
  pub answer : h s ≡ (err error, s)
  pub forbidden : status_code error ≡ 403

module _ {S : Type 0} (cs : ContextStore S) (rt : Runtime) (policies : PolicyConfig)
    (actor : ActorContext) (s : AppState S) where
  create_proposal-Refuses :
      (p : Proposal)
      → has_role actor contributor ≡ false
      → Refuses (create_proposal cs rt policies actor p) s
  unfolding create_proposal status_code
  create_proposal-Refuses p h = record {
    error = forbidden (too_low actor contributor);
    answer = ground arith;
    forbidden = refl;
  }

  update_proposal-Refuses :
      (id : String) (updates : Json)
      → has_role actor contributor ≡ false
      → Refuses (update_proposal cs rt policies actor id updates) s
  unfolding update_proposal status_code
  update_proposal-Refuses id updates h = record {
    error = forbidden (too_low actor contributor);
    answer = ground arith;
    forbidden = refl;
  }

  withdraw_proposal-Refuses :
      (id : String)
      → has_role actor contributor ≡ false
      → Refuses (withdraw_proposal cs rt policies actor id) s
  unfolding withdraw_proposal status_code
  withdraw_proposal-Refuses id h = record {
    error = forbidden (too_low actor contributor);
    answer = ground arith;
    forbidden = refl;
  }

  submit_review-Refuses :
      (id : String) (r : Review)
      → has_role actor reviewer ≡ false
      → Refuses (submit_review cs rt policies actor id r) s
  unfolding submit_review status_code
  submit_review-Refuses id r h = record {
    error = forbidden (too_low actor reviewer);
    answer = ground arith;
    forbidden = refl;
  }

  apply_proposal-Refuses :
      (id : String) (body : Option String)
      → has_role actor applier ≡ false
      → Refuses (apply_proposal cs rt policies actor id body) s
  unfolding apply_proposal status_code
  apply_proposal-Refuses id body h = record {
    error = forbidden (too_low actor applier);
    answer = ground arith;
    forbidden = refl;
  }

  reset_store-Refuses : has_role actor admin ≡ false → Refuses (reset_store cs rt actor) s
  unfolding reset_store status_code
  reset_store-Refuses h = record {
    error = forbidden (too_low actor admin);
    answer = ground arith;
    forbidden = refl;
  }

  -- Whoever lacks the role of a route that changes the store is answered with 403 and changes
  -- nothing: contributor to create, change and withdraw, reviewer to review, applier to apply,
  -- admin to reset.
  pub low_role-Refuses :
      (p : Proposal) (id : String) (updates : Json) (r : Review) (body : Option String)
      → (has_role actor contributor ≡ false
          → Refuses (create_proposal cs rt policies actor p) s
            × Refuses (update_proposal cs rt policies actor id updates) s
            × Refuses (withdraw_proposal cs rt policies actor id) s)
        × (has_role actor reviewer ≡ false → Refuses (submit_review cs rt policies actor id r) s)
        × (has_role actor applier ≡ false → Refuses (apply_proposal cs rt policies actor id body) s)
        × (has_role actor admin ≡ false → Refuses (reset_store cs rt actor) s)
  low_role-Refuses p id updates r body = (
    λ h. (
      create_proposal-Refuses p h,
      update_proposal-Refuses id updates h,
      withdraw_proposal-Refuses id h,
    ),
    submit_review-Refuses id r,
    apply_proposal-Refuses id body,
    reset_store-Refuses,
  )

  submit_review-agent :
      (id : String) (r : Review)
      → has_role actor reviewer ≡ true
      → actor.actor_type ≡ agent
      → Refuses (submit_review cs rt policies actor id r) s
  unfolding submit_review status_code
  submit_review-agent id r h a = record {
    error = forbidden (no_agent actor "submit review");
    answer = ground arith;
    forbidden = refl;
  }

  apply_proposal-agent :
      (id : String) (body : Option String)
      → has_role actor applier ≡ true
      → actor.actor_type ≡ agent
      → Refuses (apply_proposal cs rt policies actor id body) s
  unfolding apply_proposal status_code
  apply_proposal-agent id body h a = record {
    error = forbidden (no_agent actor "apply proposal");
    answer = ground arith;
    forbidden = refl;
  }

  -- An agent can neither review nor apply, whatever roles it has: the answer is 403 and nothing
  -- changes.
  pub agent-Refuses :
      (id : String) (r : Review) (body : Option String)
      → actor.actor_type ≡ agent
      → Refuses (submit_review cs rt policies actor id r) s
        × Refuses (apply_proposal cs rt policies actor id body) s
  agent-Refuses id r body a = (
    elim (Bool-cases (has_role actor reviewer)) [
      | inl high ↦ submit_review-agent id r high a
      | inr low ↦ submit_review-Refuses id r low
    ],
    elim (Bool-cases (has_role actor applier)) [
      | inl high ↦ apply_proposal-agent id body high a
      | inr low ↦ apply_proposal-Refuses id body low
    ],
  )
