-- ===== src/Policy/Create/Decision.antt =====
-- What `evaluate_on_create` of server/src/policy.rs asks of a proposal, rule by rule.
use context_first_docs.Prelude.{
  ℕ, ◌≤◌, String, Option, none, some, List, [], ◌∷◌, ◌≡◌, ◌≢◌, ◌↔◌, refl, arith, length, string_eq,
  All, append-eq-nil_iff, eq_iff,
}
use context_first_docs.Sensitivity.{Sensitivity, level}
use context_first_docs.Types.Proposal.{Operation, create, Proposal}
use context_first_docs.Policy.{
  PolicyRule, agent_proposal_limit, PolicyConfig, agent_max_sensitivity,
}
use context_first_docs.Policy.Create.{
  as_u32, total_content, too_many, too_long, limit_violations, all_limit_violations, too_sensitive,
  restricted_operation, restricted_operations, check_agent_restricted_node_modification,
  evaluate_on_create,
}

-- A proposal of an agent keeps a limit.
abbrev pub KeepsLimit : Proposal → PolicyRule → Type 0
KeepsLimit p (agent_proposal_limit max_operations max_content_length) =
    (as_u32 (length p.operations) ≤ max_operations)
    × (total_content p.operations ≤ max_content_length)
KeepsLimit p _ = Unit

-- No label is within every level.
abbrev pub LabelledAtMost : Sensitivity → Option Sensitivity → Type 0
LabelledAtMost most none = Unit
LabelledAtMost most (some s) = level s ≤ level most

-- An operation creates no node with a label above a level.
abbrev pub LabelsAtMost : Sensitivity → Operation → Type 0
LabelsAtMost most (create id order node) = LabelledAtMost most node.metadata.sensitivity
LabelsAtMost most _ = Unit

too_many_iff : (most count : ℕ) → (too_many most count ≡ []) ↔ (as_u32 count ≤ most)
unfolding too_many
too_many_iff most count = ground arith

too_long_iff : (most total : ℕ) → (too_long most total ≡ []) ↔ (total ≤ most)
unfolding too_long
too_long_iff most total = ground arith

too_sensitive_iff :
    (most : Sensitivity) (s : Option Sensitivity)
    → (too_sensitive most s ≡ []) ↔ LabelledAtMost most s
unfolding too_sensitive
too_sensitive_iff most none = (λ _. tt, λ _. refl)
too_sensitive_iff most (some s) = ground arith

limits_iff :
    (p : Proposal) (rules : List PolicyRule)
    → (all_limit_violations p rules ≡ []) ↔ All (KeepsLimit p) rules
unfolding all_limit_violations
limits_iff p [] = (λ _. tt, λ _. refl)
limits_iff p (agent_proposal_limit most longest ∷ rules) =
    let (to, from) = limits_iff p rules in
    let (many_to, many_from) = too_many_iff most (length p.operations) in
    let (long_to, long_from) = too_long_iff longest (total_content p.operations) in
    let outer =
      append-eq-nil_iff (limit_violations p (agent_proposal_limit most longest))
        (all_limit_violations p rules) in
    let inner =
      append-eq-nil_iff (too_many most (length p.operations))
        (too_long longest (total_content p.operations)) in
    (
      λ e.
          let (here, later) = outer.0 e in
          let (many, long) = inner.0 here in ((many_to many, long_to long), to later),
      λ ((many, long), all). outer.1 (inner.1 (many_from many, long_from long), from all),
    )
limits_iff p (_ ∷ rules) = let (to, from) = limits_iff p rules in (λ e. (tt, to e), λ h. from h.1)

restricted_iff :
    (most : Sensitivity) (ops : List Operation)
    → (restricted_operations most ops ≡ []) ↔ All (LabelsAtMost most) ops
unfolding restricted_operations
restricted_iff most [] = (λ _. tt, λ _. refl)
restricted_iff most (create id order node ∷ ops) =
    let (to, from) = restricted_iff most ops in
    let (own_to, own_from) = too_sensitive_iff most node.metadata.sensitivity in
    let split =
      append-eq-nil_iff (restricted_operation most (create id order node))
        (restricted_operations most ops) in
    (
      λ e. let (here, later) = split.0 e in (own_to here, to later),
      λ h. split.1 (own_from h.0, from h.1),
    )
restricted_iff most (_ ∷ ops) =
    let (to, from) = restricted_iff most ops in (λ e. (tt, to e), λ h. from h.1)

-- The policies bind nobody but agents when a proposal is created.
pub evaluate_on_create-ne-agent :
    (p : Proposal) (actor_type : String) (policies : PolicyConfig)
    → actor_type ≢ "agent"
    → evaluate_on_create p actor_type policies ≡ []
unfolding evaluate_on_create
evaluate_on_create-ne-agent p actor_type policies h = ground (arith, eq_iff actor_type "agent")

-- An agent may create a proposal exactly when it keeps every limit of the policies and creates no
-- node with a label above the level that agents may read; a node without a label passes at any
-- level.
pub evaluate_on_create-agent :
    (p : Proposal) (policies : PolicyConfig)
    → (evaluate_on_create p "agent" policies ≡ []) ↔ (
        All (KeepsLimit p) policies.rules
        × All (LabelsAtMost (agent_max_sensitivity policies)) p.operations)
unfolding evaluate_on_create
evaluate_on_create-agent p policies =
    let (limits_to, limits_from) = limits_iff p policies.rules in
    let (levels_to, levels_from) = restricted_iff (agent_max_sensitivity policies) p.operations in
    let split =
      append-eq-nil_iff (all_limit_violations p policies.rules)
        (check_agent_restricted_node_modification p "agent" policies) in
    (
      λ e. let (limits, levels) = split.0 e in (limits_to limits, levels_to levels),
      λ h. split.1 (limits_from h.0, levels_from h.1),
    )
