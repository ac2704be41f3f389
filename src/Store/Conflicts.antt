-- ===== src/Store/Conflicts.antt =====
-- `detect_conflicts` and `is_proposal_stale` of server/src/store/in_memory.rs.
pub mod Overlaps
pub mod Detection
pub mod Keys
use Prim.Native.Char.{code}
use Prim.Native.String.{◌++◌}
use mathlib.Core.List
use context_first_docs.Prelude.{
  ℕ, String, Option, none, some, List, [], ◌∷◌, Bool, false, ◌&&◌, not, Result, ok, err,
  if◌then◌else◌, ◌==◌, string_eq, nat_eq, ltb, map, length, any, retain, filter_map, contains,
  is_empty, is_some_and,
}
use context_first_docs.Prelude.Map
use context_first_docs.Types.Node.{NodeId, ContextNode, key}
use context_first_docs.Types.Proposal.{
  Proposal, ProposalStatus, status_eq, Operation, create, update, delete, status_change,
}
use context_first_docs.Types.Conflicts.{
  ProposalConflict, ConflictSeverity, critical, ConflictDetectionResult,
}
use context_first_docs.Runtime.{Runtime}
use context_first_docs.Store.{StoreError, not_found, InMemoryStore}

-- The node that an operation is about.
abbrev pub target : Operation → NodeId
target (create id order node) = node.id
target (update id order node_id changes) = node_id
target (delete id order node_id reason) = node_id
target (status_change id order node_id new_status old_status reason) = node_id

-- `HashSet::insert`
abbrev pub insert_key : String → List String → List String
insert_key k ks = if contains ks k then ks else k ∷ ks

-- `operations_node_keys`
unfoldable pub operations_node_keys : List Operation → List String
operations_node_keys [] = []
operations_node_keys (op ∷ ops) = insert_key (key (target op)) (operations_node_keys ops)

-- `splitn(2, ':')` of a text that has a colon: what stands before the first one, and behind it
unfoldable pub split_colon : String → Option (String × String)
split_colon String.[] = none
split_colon (String.◌∷◌ c s) = if code c == b':' then some ("", s) else elim (split_colon s) [
  | none ↦ none
  | some (before, behind) ↦ some (String.◌∷◌ c before, behind)
]

-- `key_to_node_id`
unfoldable pub key_to_node_id : String → Option NodeId
unfolding split_colon
key_to_node_id k = elim (split_colon k) [
  | none ↦ some (record { id = k; namespace = none })
  | some (space, id) ↦ some (record { id = id; namespace = some space })
]

-- `.intersection(..)` of two sets of keys
abbrev pub common : List String → List String → List String
common ks js = retain (contains js) ks

abbrev pub severity_of : List NodeId → ConflictSeverity
severity_of nodes = if ltb 1 (length nodes) then critical else ConflictSeverity.node

module _ (rt : Runtime) (id : String) (keys : List String) where
  abbrev pub conflicting_nodes : Proposal → List NodeId
  conflicting_nodes other =
      filter_map key_to_node_id
        (rt.arrange_keys (common keys (operations_node_keys other.operations)))

  abbrev pub conflict_with : Proposal → ProposalConflict
  conflict_with other = record {
    proposals = id ∷ other.id ∷ [];
    conflicting_nodes = conflicting_nodes other;
    conflicting_fields = none;
    severity = severity_of (conflicting_nodes other);
    auto_resolvable = false;
  }

  -- The loop over the other open proposals, with its two accumulators.
  unfoldable pub scan :
      List Proposal → List ProposalConflict → List String → List ProposalConflict × List String
  scan [] conflicts needs = (conflicts, needs)
  scan (other ∷ rest) conflicts needs =
      if is_empty (conflicting_nodes other)
      then scan rest conflicts needs
      else scan rest (List.◌++◌ conflicts (conflict_with other ∷ []))
          (if contains needs other.id then needs else List.◌++◌ needs (other.id ∷ []))

-- The open proposals but the one with this id, in the order of the iteration.
unfoldable pub other_open : Runtime → String → InMemoryStore → List Proposal
other_open rt id s =
    retain (λ (p : Proposal). p.status == ProposalStatus.«open» && not (p.id == id))
      (rt.arrange_proposals (Map.values s.proposals))

unfoldable pub detect_conflicts :
    Runtime → String → InMemoryStore → Result StoreError ConflictDetectionResult
detect_conflicts rt id s = elim (Map.get id s.proposals) [
  | none ↦ err (not_found ("proposal " ++ id))
  | some proposal ↦
      let others = other_open rt id s in
      let (conflicts, needs) = scan rt id (operations_node_keys proposal.operations) others [] [] in
      ok (record {
        conflicts = conflicts;
        mergeable =
            retain (λ other. not (contains needs other)) (map (λ (p : Proposal). p.id) others);
        needs_resolution = needs;
      })
]

-- Has the node under this key moved past the version that the proposal was based on?
abbrev pub moved : Map.Map ℕ → Map.Map ContextNode → String → Bool
moved base nodes k =
    is_some_and (Map.get k nodes)
      (λ n. is_some_and (Map.get k base) (λ base_version. ltb base_version n.metadata.version))

unfoldable pub is_proposal_stale : String → InMemoryStore → Result StoreError Bool
is_proposal_stale id s = elim (Map.get id s.proposals) [
  | none ↦ err (not_found ("proposal " ++ id))
  | some p ↦ elim p.metadata.base_versions [
    | none ↦ ok false
    | some base ↦ ok (any (moved base s.nodes) (operations_node_keys p.operations))
  ]
]
