-- ===== src/Policy/Create.antt =====
-- `evaluate_on_create` and `check_agent_restricted_node_modification` of server/src/policy.rs.
-- Lengths are cast to `u32` and summed there, as in a release build.
pub mod Decision
use Prim.Native.String.{◌++◌, len}
use mathlib.Core.List
use context_first_docs.Prelude.{
  ℕ, String, Option, none, some, List, [], ◌∷◌, ◌+◌, ◌%◌, ◌^◌, if◌then◌else◌, ltb, ◌==◌, string_eq,
  length, decimal, not,
}
use context_first_docs.Sensitivity.{Sensitivity, above, sensitivity_str}
use context_first_docs.Types.Proposal.{Operation, create, update, Proposal}
use context_first_docs.Policy.{
  PolicyViolation, PolicyRule, agent_proposal_limit, PolicyConfig, agent_max_sensitivity,
}

abbrev pub as_u32 : ℕ → ℕ
as_u32 n = n % 2 ^ 32

abbrev pub content_length : Operation → ℕ
content_length (create id order node) = as_u32 (len node.content)
content_length (update id order node_id changes) = elim changes.content [
  | none ↦ 0
  | some c ↦ as_u32 (len c)
]
content_length _ = 0

-- `.sum()` into a `u32`
unfoldable pub total_content : List Operation → ℕ
total_content [] = 0
total_content (op ∷ ops) = (content_length op + total_content ops) % 2 ^ 32

too_many : ℕ → ℕ → List PolicyViolation
too_many most count =
    if ltb most (as_u32 count)
    then record {
      rule = "agent_proposal_limit";
      message =
          "agent proposals limited to " ++ (decimal most ++ (" operations, got " ++ decimal count));
    }
      ∷ []
    else []

too_long : ℕ → ℕ → List PolicyViolation
too_long most total =
    if ltb most total
    then record {
      rule = "agent_proposal_limit";
      message =
          "agent proposal content limited to "
          ++ (decimal most ++ (" bytes, got " ++ decimal total));
    }
      ∷ []
    else []

-- What one rule has against a proposal of an agent.
unfoldable pub limit_violations : Proposal → PolicyRule → List PolicyViolation
unfolding too_many too_long
limit_violations p (agent_proposal_limit max_operations max_content_length) =
    List.◌++◌ (too_many max_operations (length p.operations))
      (too_long max_content_length (total_content p.operations))
limit_violations p _ = []

unfoldable pub all_limit_violations : Proposal → List PolicyRule → List PolicyViolation
unfolding limit_violations
all_limit_violations p [] = []
all_limit_violations p (rule ∷ rules) =
    List.◌++◌ (limit_violations p rule) (all_limit_violations p rules)

too_sensitive : Sensitivity → Option Sensitivity → List PolicyViolation
too_sensitive most none = []
too_sensitive most (some s) =
    if above s most
    then record {
      rule = "agent_restricted_modification";
      message =
          "agents cannot create nodes with sensitivity '"
          ++ (sensitivity_str s ++ ("' (max allowed: '" ++ (sensitivity_str most ++ "')")));
    }
      ∷ []
    else []

unfoldable pub restricted_operation : Sensitivity → Operation → List PolicyViolation
unfolding too_sensitive
restricted_operation most (create id order node) = too_sensitive most node.metadata.sensitivity
restricted_operation most _ = []

unfoldable pub restricted_operations : Sensitivity → List Operation → List PolicyViolation
unfolding restricted_operation
restricted_operations most [] = []
restricted_operations most (op ∷ ops) =
    List.◌++◌ (restricted_operation most op) (restricted_operations most ops)

-- `check_agent_restricted_node_modification`
unfoldable pub check_agent_restricted_node_modification :
    Proposal → String → PolicyConfig → List PolicyViolation
unfolding restricted_operations
check_agent_restricted_node_modification p actor_type policies =
    if not (actor_type == "agent")
    then []
    else restricted_operations (agent_max_sensitivity policies) p.operations

-- `evaluate_on_create`
unfoldable pub evaluate_on_create : Proposal → String → PolicyConfig → List PolicyViolation
unfolding all_limit_violations check_agent_restricted_node_modification
evaluate_on_create p actor_type policies =
    List.◌++◌ (if actor_type == "agent" then all_limit_violations p policies.rules else [])
      (check_agent_restricted_node_modification p actor_type policies)
