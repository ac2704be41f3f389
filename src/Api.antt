-- ===== src/Api.antt =====
-- server/src/api/routes.rs and events.rs: the state that the routes share, their errors, and the
-- steps of a handler. The handlers stand in the modules below.
pub mod Nodes
pub mod Proposals
pub mod Reviews
pub mod Admin
pub mod Access
pub mod Audited
pub mod Redaction
pub mod Approvals
pub mod Unreviewed
pub mod Events
pub mod Requests
use context_first_docs.Prelude.{ℕ, String, Option, none, List, [], ◌∷◌, ◌++◌, Result, ok, err}
use context_first_docs.Types.Json.{Json}
use context_first_docs.Types.Audit.{AuditEvent, AuditAction, AuditOutcome, new_event}
use context_first_docs.Runtime.{Runtime}
use context_first_docs.Store.{StoreError, Method}
use context_first_docs.Policy.{PolicyViolation}
use context_first_docs.Auth.{ActorContext, ActorType, human, agent, system, Forbidden}

-- `events::ServerEvent`
pub record ServerEvent : Type 0 where
  pub event_type : String
  pub workspace_id : Option String
  pub resource_id : String
  pub actor_id : String
  pub timestamp : String
  pub body : Option Json

-- `AppState`, with the events that were published on the bus so far. The policies never change and
-- are an argument of the handlers.
pub record AppState (S : Type 0) : Type 0 where
  pub store : S
  pub published : List ServerEvent

pub data ApiError : Type 0 where
  not_found invalid : String → ApiError
  store : StoreError → ApiError
  forbidden : Forbidden → ApiError
  policy_violation : List PolicyViolation → ApiError

-- The status code of `ApiError::into_response`
unfoldable pub status_code : ApiError → ℕ
status_code (ApiError.not_found m) = 404
status_code (ApiError.invalid m) = 400
status_code (store (StoreError.not_found m)) = 404
status_code (store (StoreError.conflict m)) = 409
status_code (store (StoreError.invalid m)) = 500
status_code (store (StoreError.internal m)) = 500
status_code (forbidden f) = 403
status_code (policy_violation vs) = 422

-- `actor_type_str`
abbrev pub actor_type_str : ActorContext → String
actor_type_str actor = elim actor.actor_type [
  | human ↦ "human"
  | agent ↦ "agent"
  | system ↦ "system"
]

-- A handler: its response or its error, and the state that it leaves.
abbrev pub Handler : Type 0 → Type 0 → Type 0
Handler S A = AppState S → Result ApiError A × AppState S

abbrev lift_store : {A : Type 0} → Result StoreError A → Result ApiError A
lift_store (ok a) = ok a
lift_store (err e) = err (store e)

abbrev lift_forbidden : {A : Type 0} → Result Forbidden A → Result ApiError A
lift_forbidden (ok a) = ok a
lift_forbidden (err e) = err (forbidden e)

module _ {S : Type 0} where
  abbrev pub continue : {A B : Type 0} → Result ApiError A → (A → Handler S B) → Handler S B
  continue (ok a) f s = f a s
  continue (err e) f s = (err e, s)

  infixl 5 ◌>>=◌ ◌>>◌
  abbrev pub ◌>>=◌ : {A B : Type 0} → Handler S A → (A → Handler S B) → Handler S B
  ◌>>=◌ m f s = continue (m s).0 f (m s).1

  abbrev pub ◌>>◌ : {A B : Type 0} → Handler S A → Handler S B → Handler S B
  m >> n = m >>= λ _. n

  abbrev pub pure : {A : Type 0} → A → Handler S A
  pure a s = (ok a, s)

  abbrev pub raise : {A : Type 0} → ApiError → Handler S A
  raise e s = (err e, s)

  -- A read of the store.
  abbrev pub gets : {A : Type 0} → (S → A) → Handler S A
  gets f s = (ok (f s.store), s)

  -- `state.store.method(..).await?`
  abbrev pub call : {A : Type 0} → Method S A → Handler S A
  call m s = (lift_store (m s.store).0, record s { store = (m s.store).1 })

  -- `let _ = state.store.method(..).await`
  abbrev pub ignore : {A : Type 0} → Method S A → Handler S (Unit {0})
  ignore m s = (ok tt, record s { store = (m s.store).1 })

  -- `rbac::check(..)?`
  abbrev pub check : Result Forbidden (Unit {0}) → Handler S (Unit {0})
  check r s = (lift_forbidden r, s)

  -- `publish_event`, and `EventBus::publish`
  abbrev pub publish_event : Runtime → String → String → ActorContext → Handler S (Unit {0})
  publish_event rt event_type resource_id actor s = (
    ok tt,
    record s {
      published =
          s.published
          ++ record {
            event_type = event_type;
            workspace_id = none;
            resource_id = resource_id;
            actor_id = actor.actor_id;
            timestamp = rt.now;
            body = none;
          }
            ∷ [];
    },
  )

-- The event that a handler records for its actor, the `n`-th of the request.
abbrev pub event_of : Runtime → ℕ → ActorContext → AuditAction → String → AuditOutcome → AuditEvent
event_of rt n actor action resource_id outcome =
    new_event rt n actor.actor_id (actor_type_str actor) action resource_id outcome
