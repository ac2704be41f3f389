-- ===== src/Api/Requests/Handlers.antt =====
-- The handlers of server/src/api/routes.rs keep what the methods of the store keep.
use context_first_docs.Prelude.{
  String, Option, none, some, List, arith, unwrap_or, is_empty, ◌==◌, not, string_eq,
}
use context_first_docs.Types.Json.{Json}
use context_first_docs.Types.Proposal.{Proposal, Review, ProposalStatus}
use context_first_docs.Types.Audit.{success, review_submitted}
use context_first_docs.Runtime.{Runtime}
use context_first_docs.Policy.{PolicyConfig, PolicyViolation}
use context_first_docs.Policy.Create.{evaluate_on_create}
use context_first_docs.Policy.Apply.{evaluate_on_apply}
use context_first_docs.Policy.Review.{evaluate_on_review}
use context_first_docs.Auth.{
  ActorContext, contributor, reviewer, applier, admin, actor_type_eq, require_role, reject_agent,
}
use context_first_docs.Store.Interface.{ContextStore}
use context_first_docs.Api.{
  AppState, ApiError, Handler, ◌>>=◌, ◌>>◌, raise, gets, call, ignore, publish_event, event_of,
  actor_type_str,
}
use context_first_docs.Api.Nodes
use context_first_docs.Api.Nodes.{NodeQueryParams, sensitivity_of}
use context_first_docs.Api.Proposals
use context_first_docs.Api.Reviews
use context_first_docs.Api.Admin
use context_first_docs.Api.Requests.{
  Request, health, events_stream, query_nodes, get_node, get_provenance, list_proposals,
  create_proposal, get_proposal, update_proposal, get_review_history, submit_review, apply_proposal,
  withdraw_proposal, reset_store, query_audit, export_audit, dsar_export, dsar_erase, serve,
}
use context_first_docs.Api.Requests.Reading.{query_nodes-Keeps, get_node-Keeps}
use context_first_docs.Api.Requests.Kept.{
  IsKept, Keeps, Holds, then-Keeps, checked-Keeps, if-Keeps, publish_event-Keeps, record-Keeps,
  announced-Keeps,
}

module _ {S : Type 0} (P : S → Type 0) (cs : ContextStore S) (rt : Runtime) (kept : IsKept cs rt P)
    (actor : ActorContext) (policies : PolicyConfig) where
  refuse-Keeps :
      (id : String) (violations : List PolicyViolation)
      → Keeps P (Proposals.refuse cs rt policies actor id violations)
  unfolding Proposals.refuse
  refuse-Keeps id violations s (h, unscoped) = (kept.append_audit _ s.store h, unscoped)

  create_proposal-Keeps :
      (p : Proposal) → Keeps P (Proposals.create_proposal cs rt policies actor p)
  unfolding Proposals.create_proposal
  create_proposal-Keeps p =
      let violations = evaluate_on_create p (actor_type_str actor) policies in
      checked-Keeps P (require_role actor contributor) _ (
        if-Keeps P (is_empty violations) (Proposals.create_allowed cs rt policies actor p)
          (Proposals.refuse cs rt policies actor p.id violations)
          (announced-Keeps P cs rt kept actor (cs.create_proposal p) _ _ _ (kept.create_proposal p))
          (refuse-Keeps p.id violations))

  update_proposal-Keeps :
      (id : String) (updates : Json)
      → Keeps P (Proposals.update_proposal cs rt policies actor id updates)
  unfolding Proposals.update_proposal
  update_proposal-Keeps id updates = checked-Keeps P (require_role actor contributor) _ (
      announced-Keeps P cs rt kept actor (cs.update_proposal rt id updates) _ _ _
        (kept.update_proposal id updates))

  withdraw_proposal-Keeps :
      (id : String) → Keeps P (Proposals.withdraw_proposal cs rt policies actor id)
  unfolding Proposals.withdraw_proposal
  withdraw_proposal-Keeps id = checked-Keeps P (require_role actor contributor) _ (
      announced-Keeps P cs rt kept actor (cs.withdraw_proposal id) _ _ _
        (kept.withdraw_proposal id))

  apply_found-Keeps :
      (id by : String) (found : Option Proposal)
      → Keeps P (Proposals.apply_found cs rt policies actor id by found)
  unfolding Proposals.refuse
  apply_found-Keeps id by none =
      announced-Keeps P cs rt kept actor (cs.apply_proposal rt id by) _ _ _
        (kept.apply_proposal id by)
  apply_found-Keeps id by (some p) =
      let violations = evaluate_on_apply rt p (actor_type_str actor) policies in
      if-Keeps P (is_empty violations) (Proposals.apply_allowed cs rt policies actor id by)
        (Proposals.refuse cs rt policies actor id violations)
        (announced-Keeps P cs rt kept actor (cs.apply_proposal rt id by) _ _ _
          (kept.apply_proposal id by))
        (refuse-Keeps id violations)

  apply_proposal-Keeps :
      (id : String) (body : Option String)
      → Keeps P (Proposals.apply_proposal cs rt policies actor id body)
  unfolding Proposals.apply_proposal
  apply_proposal-Keeps id body = checked-Keeps P (require_role actor applier) _ (
      checked-Keeps P (reject_agent actor "apply proposal") _ (λ s h.
        apply_found-Keeps id (unwrap_or body actor.actor_id) (cs.get_proposal id s.store) s h))

  reset_store-Keeps : Keeps P (Admin.reset_store cs rt actor)
  unfolding Admin.reset_store
  reset_store-Keeps =
      checked-Keeps P (require_role actor admin) _
        (announced-Keeps P cs rt kept actor cs.reset _ _ _ kept.reset)

  set_status-Keeps :
      (id : String) (status : Option String)
      → Keeps P (Reviews.set_status cs rt policies actor id status)
  set_status-Keeps id none s h = h
  set_status-Keeps id (some status) s (h, unscoped) =
      (kept.append_audit _ _ (kept.update_proposal id _ s.store h), unscoped)

  set_decided-Keeps :
      (id : String) (status : Option ProposalStatus)
      → Keeps P (Reviews.set_decided cs rt policies actor id status)
  set_decided-Keeps id none s h = h
  set_decided-Keeps id (some status) s h = set_status-Keeps id (Reviews.decided_str status) s h

  evaluate-Keeps :
      (id : String) (found : Option Proposal)
      → Keeps P (Reviews.evaluate cs rt policies actor id found)
  evaluate-Keeps id none s h = h
  evaluate-Keeps id (some p) s h =
      set_decided-Keeps id (evaluate_on_review p (cs.get_review_history id s.store) policies).0 s h

  reviewed-Keeps : (id : String) (r : Review) → Keeps P (Reviews.reviewed cs rt policies actor id r)
  reviewed-Keeps id r =
      let judged : Handler S (Unit {0}) =
        gets (cs.get_proposal id) >>= Reviews.evaluate cs rt policies actor id in
      let e = event_of rt 0 actor review_submitted id success in
      let published = publish_event rt "review_submitted" id actor >> judged in
      then-Keeps P (call (cs.submit_review r)) (ignore (cs.append_audit e) >> published)
        (λ s (h, unscoped). (kept.submit_review r s.store h, unscoped))
        (then-Keeps P (ignore (cs.append_audit e)) published (record-Keeps P cs rt kept actor e) (
          then-Keeps P (publish_event rt "review_submitted" id actor) judged
            (publish_event-Keeps P cs rt kept actor "review_submitted" id)
            (λ s h. evaluate-Keeps id (cs.get_proposal id s.store) s h)))

  submit_review-Keeps :
      (id : String) (r : Review) → Keeps P (Reviews.submit_review cs rt policies actor id r)
  unfolding Reviews.submit_review
  submit_review-Keeps id r = checked-Keeps P (require_role actor reviewer) _ (
      checked-Keeps P (reject_agent actor "submit review") _ (
        if-Keeps P (not (r.proposal_id == id)) (raise (ApiError.invalid "proposal_id mismatch"))
          (Reviews.reviewed cs rt policies actor id r) (λ s h. h) (reviewed-Keeps id r)))

  dsar_erase-Keeps : (subject : String) → Keeps P (Admin.dsar_erase cs rt actor subject)
  unfolding Admin.dsar_erase
  dsar_erase-Keeps subject =
      checked-Keeps P (require_role actor admin) _
        (λ s (h, unscoped). (kept.append_audit _ s.store h, unscoped))

  -- Every request keeps what the methods of the store keep.
  pub serve-Keeps :
      (trim : String → String) (request : Request) (s : AppState S)
      → Holds P s
      → Holds P (serve cs policies trim rt actor request s).1
  unfolding serve Nodes.get_provenance Proposals.list_proposals Proposals.get_proposal
      Proposals.get_review_history Admin.query_audit Admin.export_audit Admin.dsar_export
  serve-Keeps trim health s h = h
  serve-Keeps trim (events_stream workspace) s h = h
  serve-Keeps trim (query_nodes params) s h =
      query_nodes-Keeps P cs rt kept actor policies trim params s h
  serve-Keeps trim (get_node id) s h = get_node-Keeps P cs rt kept actor policies id s h
  serve-Keeps trim (get_provenance id) s h = ground (arith, h)
  serve-Keeps trim (list_proposals limit offset) s h = ground (arith, h)
  serve-Keeps trim (create_proposal p) s h = create_proposal-Keeps p s h
  serve-Keeps trim (get_proposal id) s h = ground (arith, h)
  serve-Keeps trim (update_proposal id updates) s h = update_proposal-Keeps id updates s h
  serve-Keeps trim (get_review_history id) s h = ground (arith, h)
  serve-Keeps trim (submit_review id review) s h = submit_review-Keeps id review s h
  serve-Keeps trim (apply_proposal id applied_by) s h = apply_proposal-Keeps id applied_by s h
  serve-Keeps trim (withdraw_proposal id) s h = withdraw_proposal-Keeps id s h
  serve-Keeps trim reset_store s h = reset_store-Keeps s h
  serve-Keeps trim (query_audit f limit offset) s h = ground (arith, h)
  serve-Keeps trim (export_audit format) s h = ground (arith, h)
  serve-Keeps trim (dsar_export subject) s h = ground (arith, h)
  serve-Keeps trim (dsar_erase subject) s h = dsar_erase-Keeps subject s h
