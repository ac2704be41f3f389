-- ===== src/Api/Requests.antt =====
-- `router` of server/src/api/routes.rs with the layer of server/src/auth.rs in front of it: a request,
-- taken apart by axum, its handler, and the status of its answer.
pub mod Kept
pub mod Safety
pub mod Handlers
pub mod Reading
use context_first_docs.Prelude.{ℕ, String, Option, none, some, List, [], ◌∷◌, Result, ok, err}
use context_first_docs.Types.Json.{Json}
use context_first_docs.Types.Proposal.{Proposal, Review}
use context_first_docs.Runtime.{Runtime}
use context_first_docs.Policy.{PolicyConfig}
use context_first_docs.Auth.{ActorContext, reader, require_role}
use context_first_docs.Auth.Token.{Crypto, AuthConfig}
use context_first_docs.Auth.Token
use context_first_docs.Store.AuditLog.{AuditFilter}
use context_first_docs.Store.Interface.{ContextStore}
use context_first_docs.Api.{ApiError, status_code, AppState, Handler, check, pure}
use context_first_docs.Api.Nodes.{NodeQueryParams}
use context_first_docs.Api.Nodes
use context_first_docs.Api.Proposals
use context_first_docs.Api.Reviews
use context_first_docs.Api.Admin

-- The routes, with what their extractors take from the request.
pub data Request : Type 0 where
  health : Request
  events_stream : (workspace : Option String) → Request
  query_nodes : NodeQueryParams → Request
  get_node : (id : String) → Request
  get_provenance : (id : String) → Request
  list_proposals : (limit offset : Option ℕ) → Request
  create_proposal : Proposal → Request
  get_proposal : (id : String) → Request
  update_proposal : (id : String) → Json → Request
  get_review_history : (id : String) → Request
  submit_review : (id : String) → Review → Request
  apply_proposal : (id : String) → (applied_by : Option String) → Request
  withdraw_proposal : (id : String) → Request
  reset_store : Request
  query_audit : AuditFilter → (limit offset : Option ℕ) → Request
  export_audit : (format : Option String) → Request
  dsar_export : (subject : String) → Request
  dsar_erase : (subject : String) → Request

-- What is different at each request: the clock and the fresh ids.
pub record Moment : Type 0 where
  pub now : String
  pub weekday : ℕ
  pub hour : ℕ
  pub fresh_id : ℕ → String
  pub now_secs : ℕ

abbrev pub at_moment : Runtime → Moment → Runtime
at_moment rt m = record rt {
  now = m.now;
  weekday = m.weekday;
  hour = m.hour;
  fresh_id = m.fresh_id;
}

-- A request with its `authorization` header, if that is readable.
pub record Visit : Type 0 where
  pub moment : Moment
  pub authorization : Option String
  pub request : Request

abbrev answered : {A : Type 0} → ℕ → Result ApiError A → ℕ
answered code (ok a) = code
answered code (err e) = status_code e

module _ {S : Type 0} (cs : ContextStore S) (policies : PolicyConfig) (trim : String → String) where
  -- The status of the answer, none where the handler panics, and the state that is left.
  abbrev pub Answered : Type 0
  Answered = Option ℕ × AppState S

  abbrev pub answer : {A : Type 0} → ℕ → Handler S A → AppState S → Answered
  answer code h s = (some (answered code (h s).0), (h s).1)

  abbrev pub answer_page :
      {A : Type 0} → (AppState S → Option (Result ApiError A × AppState S)) → AppState S → Answered
  answer_page h s = elim (h s) [ none ↦ (none, s) | some (r, s') ↦ (some (answered 200 r), s') ]

  unfoldable pub serve : Runtime → ActorContext → Request → AppState S → Answered
  unfolding require_role
  serve rt actor health = answer 200 (pure tt)
  serve rt actor (events_stream workspace) = answer 200 (check (require_role actor reader))
  serve rt actor (query_nodes params) =
      answer_page (Nodes.query_nodes cs rt policies actor trim params)
  serve rt actor (get_node id) = answer 200 (Nodes.get_node cs rt policies actor id)
  serve rt actor (get_provenance id) = answer 200 (Nodes.get_provenance cs rt policies actor id)
  serve rt actor (list_proposals limit offset) =
      answer 200 (Proposals.list_proposals cs rt policies actor limit offset)
  serve rt actor (create_proposal p) = answer 201 (Proposals.create_proposal cs rt policies actor p)
  serve rt actor (get_proposal id) = answer 200 (Proposals.get_proposal cs rt policies actor id)
  serve rt actor (update_proposal id updates) =
      answer 200 (Proposals.update_proposal cs rt policies actor id updates)
  serve rt actor (get_review_history id) =
      answer 200 (Proposals.get_review_history cs rt policies actor id)
  serve rt actor (submit_review id review) =
      answer 200 (Reviews.submit_review cs rt policies actor id review)
  serve rt actor (apply_proposal id applied_by) =
      answer 200 (Proposals.apply_proposal cs rt policies actor id applied_by)
  serve rt actor (withdraw_proposal id) =
      answer 200 (Proposals.withdraw_proposal cs rt policies actor id)
  serve rt actor reset_store = answer 200 (Admin.reset_store cs rt actor)
  serve rt actor (query_audit f limit offset) =
      answer 200 (Admin.query_audit cs rt actor f limit offset)
  serve rt actor (export_audit format) = answer 200 (Admin.export_audit cs rt actor format)
  serve rt actor (dsar_export subject) = answer 200 (Admin.dsar_export cs rt actor subject)
  serve rt actor (dsar_erase subject) = answer 200 (Admin.dsar_erase cs rt actor subject)

  module _ (rt : Runtime) (cr : Crypto) (config : AuthConfig) where
    -- One request behind the layer, which also stands before `/health`.
    unfoldable pub visit : Visit → AppState S → Answered
    unfolding serve
    visit v s =
        Token.call (record cr { now_secs = v.moment.now_secs }) (λ status. (some status, s))
          (λ actor. serve (at_moment rt v.moment) actor v.request s) v.authorization config

    unfoldable pub visits : List Visit → AppState S → AppState S
    unfolding visit
    visits [] s = s
    visits (v ∷ vs) s = visits vs (visit v s).1
