-- ===== src/Policy.antt =====
-- server/src/policy.rs: the rules, and their evaluation when a proposal is created, reviewed and
-- applied.
pub mod Create
pub mod Review
pub mod Apply
pub mod Loading
use context_first_docs.Disk.{FilePath, Disk, load_or}
use context_first_docs.Prelude.{
  ℕ, String, Option, List, [], ◌∷◌, Bool, true, false, any, is_empty, contains, string_eq, ◌||◌,
}
use context_first_docs.Sensitivity.{Sensitivity, internal}
use context_first_docs.Types.Node.{type_str}
use context_first_docs.Types.Proposal.{Operation, create, Proposal}

pub record PolicyViolation : Type 0 where
  pub rule : String
  pub message : String

pub data PolicyRule : Type 0 where
  min_approvals : (node_types : List String) (min : ℕ) → PolicyRule
  required_reviewer_role : (node_types : List String) (role : String) → PolicyRule
  change_window : (allowed_days : List ℕ) (allowed_hour_start allowed_hour_end : ℕ) → PolicyRule
  agent_restriction : (blocked_actions : List String) → PolicyRule
  agent_proposal_limit : (max_operations max_content_length : ℕ) → PolicyRule
  egress_control : (max_sensitivity : Sensitivity) (destinations : List String) → PolicyRule

-- `PolicyConfig`
pub record PolicyConfig : Type 0 where
  pub rules : List PolicyRule

-- `PolicyConfig::default()`
abbrev pub no_rules : PolicyConfig
no_rules = record { rules = [] }

-- `load_from_file`, where `parse` is `serde_json`'s
unfoldable pub load_from_file : (String → Option PolicyConfig) → FilePath → Disk → PolicyConfig
load_from_file parse path d = load_or parse no_rules path d

max_sensitivity_of : List PolicyRule → Sensitivity
max_sensitivity_of [] = internal
max_sensitivity_of (egress_control max_sensitivity destinations ∷ rules) = max_sensitivity
max_sensitivity_of (_ ∷ rules) = max_sensitivity_of rules

-- `agent_max_sensitivity`: the first rule counts
unfoldable pub agent_max_sensitivity : PolicyConfig → Sensitivity
unfolding max_sensitivity_of
agent_max_sensitivity policies = max_sensitivity_of policies.rules

-- Does an operation create a node of one of these types?
abbrev creates_one_of : List String → Operation → Bool
creates_one_of node_types (create id order node) = contains node_types (type_str node.node_type)
creates_one_of node_types _ = false

-- `proposal_touches_node_types`
unfoldable pub proposal_touches_node_types : Proposal → List String → Bool
proposal_touches_node_types p node_types = any (creates_one_of node_types) p.operations

-- The guard of the two approval rules.
abbrev pub concerns : Proposal → List String → Bool
concerns p node_types = is_empty node_types || proposal_touches_node_types p node_types
