-- ===== src/Retention.antt =====
-- server/src/retention.rs: the rules and the background task. A wake-up of its timer is a tick.
pub mod Untouched
use Prim.Native.String.{◌++◌}
use context_first_docs.Disk.{FilePath, Disk, load_or}
use context_first_docs.Prelude.{
  ℕ, zero, suc, String, Option, List, [], ◌∷◌, if◌then◌else◌, is_empty,
}
use context_first_docs.Types.Json.{Json, str, num, obj, field, end}
use context_first_docs.Types.Audit.{AuditEvent, new_event, with_details, policy_evaluated, success}
use context_first_docs.Runtime.{Runtime}
use context_first_docs.Store.Interface.{ContextStore}

pub data RetentionAction : Type 0 where
  archive delete : RetentionAction

pub record RetentionRule : Type 0 where
  pub resource_type : String
  pub retention_days : ℕ
  pub action : RetentionAction

pub record RetentionConfig : Type 0 where
  pub rules : List RetentionRule
  pub check_interval_secs : ℕ

-- The interval that serde fills in.
abbrev pub default_interval : ℕ
default_interval = 3600

-- The derived `Default`, which a missing or an unreadable file leaves.
abbrev pub default_config : RetentionConfig
default_config = record { rules = []; check_interval_secs = 0 }

-- `load_from_file`, where `parse` is `serde_json`'s
unfoldable pub load_from_file :
    (String → Option RetentionConfig) → FilePath → Disk → RetentionConfig
load_from_file parse path d = load_or parse default_config path d

-- The derived `Debug` text.
abbrev action_text : RetentionAction → String
action_text archive = "Archive"
action_text delete = "Delete"

abbrev details_of : RetentionRule → Json
details_of rule = obj (
    field "retention_rule" (str rule.resource_type) (
      field "retention_days" (num rule.retention_days)
        (field "action" (str (action_text rule.action)) end)))

module _ {S : Type 0} (cs : ContextStore S) (rt : Runtime) where
  abbrev check_event : RetentionRule → AuditEvent
  check_event rule =
      with_details
        (new_event rt 0 "system" "system" policy_evaluated ("retention:" ++ rule.resource_type)
          success)
        (details_of rule)

  -- One tick: the loop over the rules.
  unfoldable pub check_rules : List RetentionRule → S → S
  check_rules [] s = s
  check_rules (rule ∷ rules) s = check_rules rules (cs.append_audit (check_event rule) s).1

  unfoldable pub ticks : List RetentionRule → ℕ → S → S
  unfolding check_rules
  ticks rules zero s = s
  ticks rules (suc n) s = ticks rules n (check_rules rules s)

  -- `spawn_retention_task`, after `n` ticks
  unfoldable pub spawn_retention_task : RetentionConfig → ℕ → S → S
  unfolding ticks
  spawn_retention_task config n s = if is_empty config.rules then s else ticks config.rules n s
