-- ===== src/Store/AuditLog.antt =====
-- The audit log and `reset` of server/src/store/in_memory.rs.
use Prim.Native.String.{compare}
use text.Mathlib.Text.{is_lt}
use context_first_docs.Prelude.{
  ℕ, String, Option, none, some, List, [], ◌∷◌, ◌++◌, Bool, true, ◌&&◌, not, ok, ◌==◌, string_eq,
  unwrap_or, take, drop, retain,
}
use context_first_docs.Types.Audit.{AuditEvent, action_str}
use context_first_docs.Store.{InMemoryStore, Method}

-- The log outlives a reset.
unfoldable pub reset : Method InMemoryStore (Unit {0})
reset s = (ok tt, record s { nodes = []; proposals = []; reviews = []; revision_counter = 0 })

unfoldable pub append_audit : AuditEvent → Method InMemoryStore (Unit {0})
append_audit e s = (ok tt, record s { audit_log = s.audit_log ++ e ∷ [] })

-- `Option<&str>` filters: an absent one lets everything pass.
abbrev when_some : Option String → (String → Bool) → Bool
when_some none test = true
when_some (some x) test = test x

-- The arguments of `query_audit` that select events.
pub record AuditFilter : Type 0 where
  pub actor : Option String
  pub action : Option String
  pub resource_id : Option String
  pub from : Option String
  pub to : Option String

abbrev pub any_event : AuditFilter
any_event = record { actor = none; action = none; resource_id = none; from = none; to = none }

unfoldable pub passes : AuditFilter → AuditEvent → Bool
passes f e =
    when_some f.actor (λ a. e.actor_id == a)
    && (when_some f.action (λ a. action_str e.action == a)
        && (when_some f.resource_id (λ r. e.resource_id == r)
            && (when_some f.from (λ t. not (is_lt (compare e.timestamp t)))
                && when_some f.to (λ t. not (is_lt (compare t e.timestamp))))))

unfoldable pub query_audit : AuditFilter → Option ℕ → Option ℕ → InMemoryStore → List AuditEvent
unfolding passes
query_audit f limit offset s =
    take (unwrap_or limit 100) (drop (unwrap_or offset 0) (retain (passes f) s.audit_log))
