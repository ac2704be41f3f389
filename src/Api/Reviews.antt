-- ===== src/Api/Reviews.antt =====
-- `submit_review` of server/src/api/routes.rs.
use context_first_docs.Prelude.{String, Option, none, some, if◌then◌else◌, ◌==◌, string_eq, not}
use context_first_docs.Types.Json.{str, object}
use context_first_docs.Types.Proposal.{Proposal, ProposalStatus, accepted, rejected, Review}
use context_first_docs.Types.Audit.{success, review_submitted, policy_evaluated, with_details}
use context_first_docs.Runtime.{Runtime}
use context_first_docs.Policy.{PolicyConfig}
use context_first_docs.Policy.Review.{evaluate_on_review}
use context_first_docs.Auth.{ActorContext, reviewer, require_role, reject_agent}
use context_first_docs.Store.Interface.{ContextStore}
use context_first_docs.Api.{
  ApiError, Handler, ◌>>=◌, ◌>>◌, pure, raise, gets, call, ignore, check, publish_event, event_of,
}

-- The text of a status that the policy may decide; any other ends the handler.
abbrev pub decided_str : ProposalStatus → Option String
decided_str accepted = some "accepted"
decided_str rejected = some "rejected"
decided_str _ = none

module _ {S : Type 0} (cs : ContextStore S) (rt : Runtime) (policies : PolicyConfig)
    (actor : ActorContext) where
  abbrev pub set_status : String → Option String → Handler S (Unit {0})
  set_status id none = pure tt
  set_status id (some status_str) = do
    ignore (cs.update_proposal rt id (object "status" (str status_str)))
    ignore (
        cs.append_audit (
          with_details (event_of rt 1 actor policy_evaluated id success)
            (object "newStatus" (str status_str))))

  abbrev pub set_decided : String → Option ProposalStatus → Handler S (Unit {0})
  set_decided id none = pure tt
  set_decided id (some status) = set_status id (decided_str status)

  -- The evaluation of the policy after a review.
  abbrev pub evaluate : String → Option Proposal → Handler S (Unit {0})
  evaluate id none = pure tt
  evaluate id (some p) = do
    reviews ← gets (cs.get_review_history id)
    set_decided id (evaluate_on_review p reviews policies).0

  abbrev pub reviewed : String → Review → Handler S (Unit {0})
  reviewed id review = do
    call (cs.submit_review review)
    ignore (cs.append_audit (event_of rt 0 actor review_submitted id success))
    publish_event rt "review_submitted" id actor
    found ← gets (cs.get_proposal id)
    evaluate id found

  unfoldable pub submit_review : String → Review → Handler S (Unit {0})
  unfolding require_role reject_agent evaluate_on_review
  submit_review id review = do
    check (require_role actor reviewer)
    check (reject_agent actor "submit review")
    if not (review.proposal_id == id)
        then raise (ApiError.invalid "proposal_id mismatch")
        else reviewed id review
