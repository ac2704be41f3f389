-- ===== src/Policy/Apply/Decision.antt =====
-- When `evaluate_on_apply` of server/src/policy.rs lets a proposal be applied, rule by rule.
use context_first_docs.Prelude.{
  ℕ, ◌≤◌, ◌<◌, String, List, [], ◌∷◌, ◌≡◌, ◌↔◌, refl, arith, true, false, contains, ◌==◌, string_eq,
  nat_eq, All, append-eq-nil_iff,
}
use context_first_docs.Runtime.{Runtime}
use context_first_docs.Types.Proposal.{Proposal}
use context_first_docs.Policy.{PolicyRule, change_window, agent_restriction, PolicyConfig}
use context_first_docs.Policy.Apply.{
  day_of, wrong_day, wrong_hour, blocked, apply_violations, all_apply_violations, evaluate_on_apply,
}

-- A rule lets an actor of this type apply a proposal now.
abbrev pub Permits : Runtime → String → PolicyRule → Type 0
Permits rt actor_type (change_window days start end) =
    (contains days (day_of rt) ≡ true) × (start ≤ rt.hour) × (rt.hour < end)
Permits rt actor_type (agent_restriction actions) =
    (actor_type == "agent") ≡ true → contains actions "apply" ≡ false
Permits rt actor_type _ = Unit

wrong_day_iff : (day : ℕ) (days : List ℕ) → (wrong_day day days ≡ []) ↔ (contains days day ≡ true)
unfolding wrong_day
wrong_day_iff day days = ground arith

wrong_hour_iff :
    (hour start end : ℕ) → (wrong_hour hour start end ≡ []) ↔ ((start ≤ hour) × (hour < end))
unfolding wrong_hour
wrong_hour_iff hour start end = ground arith

blocked_iff :
    (actor_type : String) (actions : List String)
    → (blocked actor_type actions ≡ [])
      ↔ ((actor_type == "agent") ≡ true → contains actions "apply" ≡ false)
unfolding blocked
blocked_iff actor_type actions = ground arith

module _ (rt : Runtime) (actor_type : String) where
  rule_iff :
      (rule : PolicyRule) → (apply_violations rt actor_type rule ≡ []) ↔ Permits rt actor_type rule
  unfolding apply_violations
  rule_iff (change_window days start end) =
      let (day_to, day_from) = wrong_day_iff (day_of rt) days in
      let (hour_to, hour_from) = wrong_hour_iff rt.hour start end in
      let split = append-eq-nil_iff (wrong_day (day_of rt) days) (wrong_hour rt.hour start end) in
      (
        λ e.
            let (day, hour) = split.0 e in
            let (after, before) = hour_to hour in (day_to day, after, before),
        λ h. split.1 (day_from h.0, hour_from (h.1, h.2)),
      )
  rule_iff (agent_restriction actions) = blocked_iff actor_type actions
  rule_iff _ = (λ _. tt, λ _. refl)

  rules_iff :
      (rules : List PolicyRule)
      → (all_apply_violations rt actor_type rules ≡ []) ↔ All (Permits rt actor_type) rules
  unfolding all_apply_violations
  rules_iff [] = (λ _. tt, λ _. refl)
  rules_iff (rule ∷ rules) =
      let (own_to, own_from) = rule_iff rule in
      let (to, from) = rules_iff rules in
      let split =
        append-eq-nil_iff (apply_violations rt actor_type rule)
          (all_apply_violations rt actor_type rules) in
      (
        λ e. let (here, later) = split.0 e in (own_to here, to later),
        λ h. split.1 (own_from h.0, from h.1),
      )

-- Applying is allowed exactly when every change window is open and, for an agent, no restriction
-- blocks applying.
pub evaluate_on_apply_iff :
    (rt : Runtime) (p : Proposal) (actor_type : String) (policies : PolicyConfig)
    → (evaluate_on_apply rt p actor_type policies ≡ []) ↔ All (Permits rt actor_type) policies.rules
unfolding evaluate_on_apply
evaluate_on_apply_iff rt p actor_type policies = rules_iff rt actor_type policies.rules
