-- ===== src/Policy/Apply.antt =====
-- `evaluate_on_apply` of server/src/policy.rs.
pub mod Decision
use Prim.Native.String.{◌++◌}
use mathlib.Core.List
use context_first_docs.Prelude.{
  ℕ, String, List, [], ◌∷◌, Bool, ◌||◌, ◌-◌, if◌then◌else◌, ltb, leb, ◌==◌, string_eq, nat_eq,
  contains, decimal, not,
}
use context_first_docs.Runtime.{Runtime}
use context_first_docs.Types.Proposal.{Proposal}
use context_first_docs.Policy.{
  PolicyViolation, PolicyRule, change_window, agent_restriction, PolicyConfig,
}

-- `{:?}` of a vector of numbers
abbrev commas : List ℕ → String
commas [] = ""
commas (n ∷ []) = decimal n
commas (n ∷ m ∷ ms) = decimal n ++ (", " ++ commas (m ∷ ms))

abbrev debug_days : List ℕ → String
debug_days days = "[" ++ (commas days ++ "]")

-- The day as the code counts it, 0 = Monday.
abbrev pub day_of : Runtime → ℕ
day_of rt = rt.weekday - 1

wrong_day : ℕ → List ℕ → List PolicyViolation
wrong_day day allowed =
    if not (contains allowed day)
    then record {
      rule = "change_window";
      message =
          "apply not allowed on day "
          ++ (decimal day ++ (" (allowed: " ++ (debug_days allowed ++ ")")));
    }
      ∷ []
    else []

wrong_hour : ℕ → ℕ → ℕ → List PolicyViolation
wrong_hour hour start end =
    if ltb hour start || leb end hour
    then record {
      rule = "change_window";
      message =
          "apply not allowed at hour "
          ++ (decimal hour ++ (" (allowed: " ++ (decimal start ++ ("–" ++ (decimal end ++ ")")))));
    }
      ∷ []
    else []

blocked : String → List String → List PolicyViolation
blocked actor_type actions =
    if actor_type == "agent"
    then (if contains actions "apply"
        then record { rule = "agent_restriction"; message = "agents cannot apply proposals" } ∷ []
        else [])
    else []

unfoldable pub apply_violations : Runtime → String → PolicyRule → List PolicyViolation
unfolding wrong_day wrong_hour blocked
apply_violations rt actor_type (change_window days start end) =
    List.◌++◌ (wrong_day (day_of rt) days) (wrong_hour rt.hour start end)
apply_violations rt actor_type (agent_restriction actions) = blocked actor_type actions
apply_violations rt actor_type _ = []

unfoldable pub all_apply_violations : Runtime → String → List PolicyRule → List PolicyViolation
unfolding apply_violations
all_apply_violations rt actor_type [] = []
all_apply_violations rt actor_type (rule ∷ rules) =
    List.◌++◌ (apply_violations rt actor_type rule) (all_apply_violations rt actor_type rules)

-- `evaluate_on_apply`
unfoldable pub evaluate_on_apply : Runtime → Proposal → String → PolicyConfig → List PolicyViolation
unfolding all_apply_violations
evaluate_on_apply rt p actor_type policies = all_apply_violations rt actor_type policies.rules
