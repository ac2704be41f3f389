-- ===== src/Types/Audit.antt =====
-- server/src/types/audit.rs: the events of the audit log.
use context_first_docs.Prelude.{ℕ, String, Option, none, some}
use context_first_docs.Runtime.{Runtime}
use context_first_docs.Types.Json.{Json}

pub data AuditAction : Type 0 where
  proposal_created proposal_updated review_submitted proposal_applied : AuditAction
  proposal_withdrawn node_created node_updated node_deleted role_changed : AuditAction
  policy_evaluated store_reset sensitive_read : AuditAction

-- The name under which the derived serialisation (`snake_case`) writes an action.
abbrev pub action_str : AuditAction → String
action_str proposal_created = "proposal_created"
action_str proposal_updated = "proposal_updated"
action_str review_submitted = "review_submitted"
action_str proposal_applied = "proposal_applied"
action_str proposal_withdrawn = "proposal_withdrawn"
action_str node_created = "node_created"
action_str node_updated = "node_updated"
action_str node_deleted = "node_deleted"
action_str role_changed = "role_changed"
action_str policy_evaluated = "policy_evaluated"
action_str store_reset = "store_reset"
action_str sensitive_read = "sensitive_read"

pub data AuditOutcome : Type 0 where
  success denied policy_violation error : AuditOutcome

pub record AuditEvent : Type 0 where
  pub event_id : String
  pub timestamp : String
  pub actor_id : String
  pub actor_type : String
  pub action : AuditAction
  pub resource_id : String
  pub workspace_id : Option String
  pub details : Option Json
  pub outcome : AuditOutcome

-- `AuditEvent::new`, at the `n`-th event of the log
abbrev pub new_event :
    Runtime → ℕ → String → String → AuditAction → String → AuditOutcome → AuditEvent
new_event rt n actor_id actor_type action resource_id outcome = record {
  event_id = rt.fresh_id n;
  timestamp = rt.now;
  actor_id = actor_id;
  actor_type = actor_type;
  action = action;
  resource_id = resource_id;
  workspace_id = none;
  details = none;
  outcome = outcome;
}

-- `AuditEvent::with_details`
abbrev pub with_details : AuditEvent → Json → AuditEvent
with_details e details = record e { details = some details }
