-- ===== src/Api/Admin.antt =====
-- The routes of server/src/api/routes.rs for administrators: reset, audit, export and data subject
-- requests.
use Prim.Native.String.{◌++◌}
use context_first_docs.Prelude.{
  ℕ, String, Option, none, some, List, [], ◌∷◌, if◌then◌else◌, ◌==◌, string_eq, unwrap_or,
}
use context_first_docs.Types.Json.{str, obj, field, end}
use context_first_docs.Types.Audit.{
  AuditEvent, AuditOutcome, success, denied, policy_violation, error, store_reset, role_changed,
  action_str, with_details,
}
use context_first_docs.Runtime.{Runtime}
use context_first_docs.Auth.{ActorContext, admin, require_role}
use context_first_docs.Store.AuditLog.{AuditFilter, any_event}
use context_first_docs.Store.Interface.{ContextStore}
use context_first_docs.Api.{
  Handler, ◌>>=◌, ◌>>◌, pure, gets, call, ignore, check, publish_event, event_of,
}

-- The derived serialisation (`snake_case`) of an outcome.
abbrev pub outcome_str : AuditOutcome → String
outcome_str success = "success"
outcome_str denied = "denied"
outcome_str policy_violation = "policy_violation"
outcome_str error = "error"

abbrev pub csv_header : String
csv_header = "event_id,timestamp,actor_id,actor_type,action,resource_id,outcome\n"

abbrev comma : String → String → String
comma a rest = a ++ ("," ++ rest)

-- One line of the export; no field is quoted.
unfoldable pub csv_line : AuditEvent → String
csv_line e = comma e.event_id (
    comma e.timestamp (
      comma e.actor_id (
        comma e.actor_type
          (comma (action_str e.action) (comma e.resource_id (outcome_str e.outcome ++ "\n"))))))

csv_lines : String → List AuditEvent → String
csv_lines csv [] = csv
csv_lines csv (e ∷ es) = csv_lines (csv ++ csv_line e) es

pub data Export : Type 0 where
  csv : String → Export
  json : List AuditEvent → Export

unfoldable pub export_as : String → List AuditEvent → Export
unfolding csv_line csv_lines
export_as format events = if format == "csv" then csv (csv_lines csv_header events) else json events

-- `DsarExportResponse`
pub record DsarExportResponse : Type 0 where
  pub subject : String
  pub audit_events : List AuditEvent

module _ {S : Type 0} (cs : ContextStore S) (rt : Runtime) (actor : ActorContext) where
  unfoldable pub reset_store : Handler S (Unit {0})
  unfolding require_role
  reset_store = do
    check (require_role actor admin)
    call cs.reset
    ignore (cs.append_audit (event_of rt 0 actor store_reset "store" success))
    publish_event rt "config_changed" "store" actor

  unfoldable pub query_audit : AuditFilter → Option ℕ → Option ℕ → Handler S (List AuditEvent)
  unfolding require_role
  query_audit f limit offset = do
    check (require_role actor admin)
    gets (cs.query_audit f limit offset)

  unfoldable pub export_audit : Option String → Handler S Export
  unfolding require_role export_as
  export_audit format = do
    check (require_role actor admin)
    events ← gets (cs.query_audit any_event (some 100000) none)
    pure (export_as (unwrap_or format "json") events)

  unfoldable pub dsar_export : String → Handler S DsarExportResponse
  unfolding require_role
  dsar_export subject = do
    check (require_role actor admin)
    events ← gets (cs.query_audit (record any_event { actor = some subject }) (some 100000) none)
    pure (record { subject = subject; audit_events = events })

  -- `dsar_erase`, with the message of its response
  unfoldable pub dsar_erase : String → Handler S String
  unfolding require_role
  dsar_erase subject = do
    check (require_role actor admin)
    ignore (
        cs.append_audit (
          with_details (event_of rt 0 actor role_changed subject success)
            (obj (field "dsar" (str "erase") (field "subject" (str subject) end)))))
    pure ("DSAR erase recorded for subject " ++ subject)
