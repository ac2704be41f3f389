-- ===== src/Api/Requests/Kept.antt =====
-- What the routes of server/src/api/routes.rs leave true of the store and of the published events.
use context_first_docs.Prelude.{
  String, none, List, ◌≡◌, refl, Result, ok, err, Bool, true, false, if◌then◌else◌, All, All-append,
  string_eq,
}
use context_first_docs.Types.Json.{Json}
use context_first_docs.Types.Proposal.{Proposal, Review}
use context_first_docs.Types.Audit.{AuditEvent}
use context_first_docs.Runtime.{Runtime}
use context_first_docs.Auth.{ActorContext, Forbidden, actor_type_eq}
use context_first_docs.Store.{Method}
use context_first_docs.Store.Interface.{ContextStore}
use context_first_docs.Api.{
  ServerEvent, AppState, ApiError, Handler, ◌>>=◌, ◌>>◌, call, ignore, check, publish_event,
  continue,
}

-- No event names a workspace.
abbrev pub Unscoped : List ServerEvent → Type 0
Unscoped events = All (λ e. e.workspace_id ≡ none) events

-- A predicate that every method of a store keeps which changes it.
pub record IsKept {S : Type 0} (cs : ContextStore S) (rt : Runtime) (P : S → Type 0) : Type 0 where
  pub create_proposal : (p : Proposal) (s : S) → P s → P (cs.create_proposal p s).1
  pub update_proposal :
      (id : String) (updates : Json) (s : S) → P s → P (cs.update_proposal rt id updates s).1
  pub submit_review : (r : Review) (s : S) → P s → P (cs.submit_review r s).1
  pub apply_proposal : (id by : String) (s : S) → P s → P (cs.apply_proposal rt id by s).1
  pub withdraw_proposal : (id : String) (s : S) → P s → P (cs.withdraw_proposal id s).1
  pub reset : (s : S) → P s → P (cs.reset s).1
  pub append_audit : (e : AuditEvent) (s : S) → P s → P (cs.append_audit e s).1

module _ {S : Type 0} (P : S → Type 0) where
  abbrev pub Holds : AppState S → Type 0
  Holds s = P s.store × Unscoped s.published

  abbrev pub Keeps : {A : Type 0} → Handler S A → Type 0
  Keeps h = (s : AppState S) → Holds s → Holds (h s).1

  continue-Keeps :
      {A B : Type 0} (r : Result ApiError A) (f : A → Handler S B)
      → ((a : A) → Keeps (f a))
      → Keeps (continue r f)
  continue-Keeps (ok a) f keeps s h = keeps a s h
  continue-Keeps (err e) f keeps s h = h

  pub bind-Keeps :
      {A B : Type 0} (m : Handler S A) (f : A → Handler S B)
      → Keeps m
      → ((a : A) → Keeps (f a))
      → Keeps (m >>= f)
  bind-Keeps m f first later s h = continue-Keeps (m s).0 f later (m s).1 (first s h)

  pub then-Keeps :
      {A B : Type 0} (m : Handler S A) (n : Handler S B) → Keeps m → Keeps n → Keeps (m >> n)
  then-Keeps m n first later = bind-Keeps m (λ _. n) first (λ _. later)

  pub checked-Keeps :
      {A : Type 0} (r : Result Forbidden (Unit {0})) (h : Handler S A)
      → Keeps h
      → Keeps (check r >> h)
  checked-Keeps (ok passed) h keeps s holds = keeps s holds
  checked-Keeps (err f) h keeps s holds = holds

  pub if-Keeps :
      {A : Type 0} (b : Bool) (m n : Handler S A) → Keeps m → Keeps n → Keeps (if b then m else n)
  if-Keeps true m n keeps keeps' = keeps
  if-Keeps false m n keeps keeps' = keeps'

  -- A handler that calls the store, records it and publishes it.
  module _ (cs : ContextStore S) (rt : Runtime) (kept : IsKept cs rt P) (actor : ActorContext) where
    pub publish_event-Keeps :
        (event_type id : String) → Keeps (publish_event rt event_type id actor)
    publish_event-Keeps event_type id s (h, unscoped) =
        (h, All-append _ s.published _ unscoped (refl, tt))

    pub record-Keeps : (e : AuditEvent) → Keeps (ignore (cs.append_audit e))
    record-Keeps e s (h, unscoped) = (kept.append_audit e s.store h, unscoped)

    abbrev announced : Method S (Unit {0}) → AuditEvent → String → String → Handler S (Unit {0})
    announced m e event_type id = do
      call m
      ignore (cs.append_audit e)
      publish_event rt event_type id actor

    pub announced-Keeps :
        (m : Method S (Unit {0})) (e : AuditEvent) (event_type id : String)
        → ((s : S) → P s → P (m s).1)
        → Keeps (announced m e event_type id)
    announced-Keeps m e event_type id keeps =
        then-Keeps (call m) (ignore (cs.append_audit e) >> publish_event rt event_type id actor)
          (λ s (h, unscoped). (keeps s.store h, unscoped))
          (then-Keeps (ignore (cs.append_audit e)) (publish_event rt event_type id actor)
            (record-Keeps e) (publish_event-Keeps event_type id))
