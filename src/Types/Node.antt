-- ===== src/Types/Node.antt =====
-- server/src/types/node.rs: the nodes of the context graph. The timestamps are RFC 3339 texts.
use context_first_docs.Prelude.{
  ℕ, String, Option, none, some, List, Bool, true, false, PartialEq, ◌≡◌, ◌↔◌, arith, ◌==◌, nat_eq,
}
use Prim.Native.String.{◌++◌}
use context_first_docs.Sensitivity.{Sensitivity}

pub data NodeType : Type 0 where
  goal decision constraint task risk question context plan note : NodeType

-- `NodeType::as_str`
abbrev pub type_str : NodeType → String
type_str goal = "goal"
type_str decision = "decision"
type_str constraint = "constraint"
type_str task = "task"
type_str risk = "risk"
type_str question = "question"
type_str context = "context"
type_str plan = "plan"
type_str note = "note"

pub data NodeStatus : Type 0 where
  accepted proposed rejected superseded : NodeStatus

abbrev pub node_status_beq : NodeStatus → NodeStatus → Bool
node_status_beq accepted accepted = true
node_status_beq proposed proposed = true
node_status_beq rejected rejected = true
node_status_beq superseded superseded = true
node_status_beq _ _ = false

pub node_status_beq_iff : (a b : NodeStatus) → (node_status_beq a b ≡ true) ↔ (a ≡ b)
node_status_beq_iff a b = ground arith

instance abbrev pub node_status_eq : PartialEq NodeStatus
node_status_eq = record { same = node_status_beq; same_iff = node_status_beq_iff }

-- The position of a type in the declaration, by which the derived equality compares.
abbrev type_index : NodeType → ℕ
type_index goal = 0
type_index decision = 1
type_index constraint = 2
type_index task = 3
type_index risk = 4
type_index question = 5
type_index context = 6
type_index plan = 7
type_index note = 8

abbrev pub node_type_beq : NodeType → NodeType → Bool
node_type_beq a b = type_index a == type_index b

pub node_type_beq_iff : (a b : NodeType) → (node_type_beq a b ≡ true) ↔ (a ≡ b)
node_type_beq_iff a b = ground arith

instance abbrev pub node_type_eq : PartialEq NodeType
node_type_eq = record { same = node_type_beq; same_iff = node_type_beq_iff }

pub record NodeId : Type 0 where
  pub id : String
  pub namespace : Option String

-- `NodeId::key`
unfoldable pub key : NodeId → String
key n = elim n.namespace [ none ↦ n.id | some space ↦ space ++ (":" ++ n.id) ]

pub record TextRange : Type 0 where
  pub start : ℕ
  pub end : ℕ
  pub source : Option String

pub data RelationshipType : Type 0 where
  parent_child depends_on references supersedes related_to : RelationshipType
  implements blocks mitigates : RelationshipType

pub record RelationshipMetadata : Type 0 where
  pub created_at : Option String
  pub created_by : Option String
  pub description : Option String

pub record NodeRelationship : Type 0 where
  pub relationship_type : RelationshipType
  pub target : NodeId
  pub reverse_type : Option RelationshipType
  pub metadata : Option RelationshipMetadata

pub record NodeMetadata : Type 0 where
  pub created_at : String
  pub created_by : String
  pub modified_at : String
  pub modified_by : String
  pub tags : Option (List String)
  pub implemented_in_commit : Option String
  pub referenced_in_commits : Option (List String)
  pub version : ℕ
  pub sensitivity : Option Sensitivity
  pub content_hash : Option String
  pub source_attribution : Option String
  pub ip_classification : Option String
  pub license : Option String

pub data TaskState : Type 0 where
  «open» in_progress blocked completed cancelled : TaskState

pub data RiskSeverity : Type 0 where
  low medium high critical : RiskSeverity

pub data RiskLikelihood : Type 0 where
  unlikely possible likely certain : RiskLikelihood

pub record ContextNode : Type 0 where
  pub id : NodeId
  pub node_type : NodeType
  pub status : NodeStatus
  pub title : Option String
  pub description : Option String
  pub content : String
  pub text_range : Option TextRange
  pub metadata : NodeMetadata
  pub relationships : Option (List NodeRelationship)
  pub relations : Option (List NodeId)
  pub referenced_by : Option (List NodeId)
  pub source_files : Option (List String)
  pub decision : Option String
  pub rationale : Option String
  pub alternatives : Option (List String)
  pub decided_at : Option String
  pub state : Option TaskState
  pub assignee : Option String
  pub due_date : Option String
  pub dependencies : Option (List NodeId)
  pub severity : Option RiskSeverity
  pub likelihood : Option RiskLikelihood
  pub mitigation : Option String
  pub question : Option String
  pub answer : Option String
  pub answered_at : Option String
  pub constraint : Option String
  pub reason : Option String
