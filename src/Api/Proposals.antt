-- ===== src/Api/Proposals.antt =====
-- The routes of server/src/api/routes.rs on proposals, but the review. A response that says only
-- `{ "ok": true }` is the unit.
use context_first_docs.Prelude.{
  ℕ, String, Option, none, some, List, [], ◌∷◌, Bool, ◌+◌, ◌-◌, min, if◌then◌else◌, ltb, length,
  take, drop, is_empty, unwrap_or,
}
use Prim.Native.String
use context_first_docs.Types.Json.{Json, str, object, arr, nil, cons, obj, field, end, Elems}
use context_first_docs.Types.Proposal.{Proposal, Review}
use context_first_docs.Types.Audit.{
  success, AuditOutcome, proposal_created, proposal_updated, proposal_applied, proposal_withdrawn,
  policy_evaluated, with_details,
}
use context_first_docs.Runtime.{Runtime}
use context_first_docs.Policy.{PolicyViolation, PolicyConfig}
use context_first_docs.Policy.Create.{evaluate_on_create}
use context_first_docs.Policy.Apply.{evaluate_on_apply}
use context_first_docs.Auth.{ActorContext, reader, contributor, applier, require_role, reject_agent}
use context_first_docs.Store.Interface.{ContextStore}
use context_first_docs.Api.{
  ApiError, policy_violation, Handler, ◌>>=◌, ◌>>◌, pure, raise, gets, call, ignore, check,
  publish_event, event_of, actor_type_str,
}

-- `json!({ "violations": violations })`
abbrev violation_list : List PolicyViolation → Elems
violation_list [] = nil
violation_list (v ∷ vs) =
    cons (obj (field "rule" (str v.rule) (field "message" (str v.message) end))) (violation_list vs)

-- `ProposalListResponse`
pub record ProposalListResponse : Type 0 where
  pub proposals : List Proposal
  pub total : ℕ
  pub limit : ℕ
  pub offset : ℕ
  pub has_more : Bool

module _ {S : Type 0} (cs : ContextStore S) (rt : Runtime) (policies : PolicyConfig)
    (actor : ActorContext) where
  abbrev pub list_page : Option ℕ → Option ℕ → List Proposal → ProposalListResponse
  list_page limit_param offset_param full =
      let limit = min (unwrap_or limit_param 50) 1000 in
      let offset = min (unwrap_or offset_param 0) (length full) in
      let end = min (offset + limit) (length full) in
      record {
        proposals = take (end - offset) (drop offset full);
        total = length full;
        limit = limit;
        offset = offset;
        has_more = ltb end (length full);
      }

  unfoldable pub list_proposals : Option ℕ → Option ℕ → Handler S ProposalListResponse
  unfolding require_role
  list_proposals limit_param offset_param = do
    check (require_role actor reader)
    full ← gets (cs.get_open_proposals rt)
    pure (list_page limit_param offset_param full)

  unfoldable pub refuse : String → List PolicyViolation → Handler S (Unit {0})
  refuse id violations = do
    ignore (
        cs.append_audit (
          with_details (event_of rt 0 actor policy_evaluated id AuditOutcome.policy_violation)
            (object "violations" (arr (violation_list violations)))))
    raise (policy_violation violations)

  abbrev pub create_allowed : Proposal → Handler S (Unit {0})
  create_allowed p = do
    call (cs.create_proposal p)
    ignore (cs.append_audit (event_of rt 0 actor proposal_created p.id success))
    publish_event rt "proposal_updated" p.id actor

  unfoldable pub create_proposal : Proposal → Handler S (Unit {0})
  unfolding require_role evaluate_on_create refuse
  create_proposal p = do
    check (require_role actor contributor)
    let violations = evaluate_on_create p (actor_type_str actor) policies
    if is_empty violations then create_allowed p else refuse p.id violations

  abbrev found_proposal : String → Option Proposal → Handler S Proposal
  found_proposal id none =
      raise (ApiError.not_found (String.◌++◌ "proposal " (String.◌++◌ id " not found")))
  found_proposal id (some p) = pure p

  unfoldable pub get_proposal : String → Handler S Proposal
  unfolding require_role
  get_proposal id = do
    check (require_role actor reader)
    found ← gets (cs.get_proposal id)
    found_proposal id found

  unfoldable pub update_proposal : String → Json → Handler S (Unit {0})
  unfolding require_role
  update_proposal id updates = do
    check (require_role actor contributor)
    call (cs.update_proposal rt id updates)
    ignore (cs.append_audit (event_of rt 0 actor proposal_updated id success))
    publish_event rt "proposal_updated" id actor

  unfoldable pub get_review_history : String → Handler S (List Review)
  unfolding require_role
  get_review_history id = do check (require_role actor reader); gets (cs.get_review_history id)

  abbrev pub apply_allowed : String → String → Handler S (Unit {0})
  apply_allowed id applied_by = do
    call (cs.apply_proposal rt id applied_by)
    ignore (cs.append_audit (event_of rt 0 actor proposal_applied id success))
    publish_event rt "proposal_updated" id actor

  abbrev pub apply_found : String → String → Option Proposal → Handler S (Unit {0})
  apply_found id applied_by none = apply_allowed id applied_by
  apply_found id applied_by (some p) =
      let violations = evaluate_on_apply rt p (actor_type_str actor) policies in
      if is_empty violations then apply_allowed id applied_by else refuse id violations

  -- `body` is the `applied_by` of the request, if it is given.
  unfoldable pub apply_proposal : String → Option String → Handler S (Unit {0})
  unfolding require_role reject_agent evaluate_on_apply refuse
  apply_proposal id body = do
    check (require_role actor applier)
    check (reject_agent actor "apply proposal")
    found ← gets (cs.get_proposal id)
    apply_found id (unwrap_or body actor.actor_id) found

  unfoldable pub withdraw_proposal : String → Handler S (Unit {0})
  unfolding require_role
  withdraw_proposal id = do
    check (require_role actor contributor)
    call (cs.withdraw_proposal id)
    ignore (cs.append_audit (event_of rt 0 actor proposal_withdrawn id success))
    publish_event rt "proposal_updated" id actor
