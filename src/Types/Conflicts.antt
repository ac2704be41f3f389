-- ===== src/Types/Conflicts.antt =====
-- server/src/types/conflicts.rs: the results of conflict detection and of merging.
use context_first_docs.Prelude.{String, Option, List, Bool}
use context_first_docs.Prelude.Map.{Map}
use context_first_docs.Types.Json.{Json}
use context_first_docs.Types.Node.{NodeId}

pub data ConflictSeverity : Type 0 where
  field node critical : ConflictSeverity

pub record ProposalConflict : Type 0 where
  pub proposals : List String
  pub conflicting_nodes : List NodeId
  pub conflicting_fields : Option (Map (List String))
  pub severity : ConflictSeverity
  pub auto_resolvable : Bool

pub record ConflictDetectionResult : Type 0 where
  pub conflicts : List ProposalConflict
  pub mergeable : List String
  pub needs_resolution : List String

pub record FieldChange : Type 0 where
  pub node_id : NodeId
  pub field : String
  pub old_value : Json
  pub new_value : Json

pub record MergeConflictField : Type 0 where
  pub field : String
  pub node_id : NodeId
  pub proposal1_value : Json
  pub proposal2_value : Json

pub record MergeResult : Type 0 where
  pub merged : List FieldChange
  pub conflicts : List MergeConflictField
  pub auto_merged : List FieldChange
