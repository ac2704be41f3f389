-- ===== src/Store/Apply.antt =====
-- `apply_operation` and `apply_proposal` of server/src/store/in_memory.rs. Counters wrap, as in a
-- release build. A read or write section of a lock is a function of its own.
pub mod Sorting
pub mod Outcome
pub mod Effects
pub mod Success
pub mod Failure
pub mod Fields
pub mod Sections
use Prim.Native.String.{◌++◌}
use context_first_docs.Prelude.{
  ℕ, String, Option, none, some, List, [], ◌∷◌, Bool, true, false, ◌+◌, ◌%◌, ◌^◌, Result, ok, err,
  ◌>>=◌, if◌then◌else◌, ◌==◌, not, last, decimal, unwrap_or,
}
use context_first_docs.Prelude.Map
use context_first_docs.Prelude.Map.{Map}
use context_first_docs.Types.Node.{ContextNode, NodeMetadata, NodeStatus, rejected, key}
use context_first_docs.Types.Proposal.{
  Proposal, ProposalStatus, accepted, applied, status_eq, UpdateChanges, Operation, create, update,
  delete, status_change, AppliedMetadata, Review,
}
use context_first_docs.Runtime.{Runtime, content_hash}
use context_first_docs.Store.{StoreError, not_found, invalid, InMemoryStore, Method}
use Sorting.{sort_by_order}

-- `version += 1` on a `u32`
abbrev pub next_version : ℕ → ℕ
next_version v = (v + 1) % 2 ^ 32

module _ (rt : Runtime) (modified_at modified_by : String) where
  abbrev pub touch : NodeMetadata → NodeMetadata
  touch m = record m {
    modified_at = modified_at;
    modified_by = modified_by;
    version = next_version m.version;
  }

  abbrev pub created : ContextNode → ContextNode
  created node = record node {
    metadata = record (touch node.metadata) { content_hash = some (content_hash rt node.content) };
  }

  abbrev set_content : Option String → ContextNode → ContextNode
  set_content none node = node
  set_content (some c) node = record node {
    content = c;
    description = some c;
    metadata = record node.metadata { content_hash = some (content_hash rt c) };
  }

  abbrev set_status : Option NodeStatus → ContextNode → ContextNode
  set_status none node = node
  set_status (some s) node = record node { status = s }

  abbrev pub updated : UpdateChanges → ContextNode → ContextNode
  updated changes node =
      set_status changes.status
        (set_content changes.content (record node { metadata = touch node.metadata }))

  abbrev pub with_status : NodeStatus → ContextNode → ContextNode
  with_status s node = record node { status = s; metadata = touch node.metadata }

  -- `InMemoryStore::apply_operation`; where it fails it has written nothing
  unfoldable pub apply_operation : Operation → Map ContextNode → Result StoreError (Map ContextNode)
  apply_operation (create id order node) nodes = ok (Map.insert (key node.id) (created node) nodes)
  apply_operation (update id order node_id changes) nodes = elim (Map.get (key node_id) nodes) [
    | none ↦ err (not_found ("node " ++ key node_id))
    | some existing ↦ ok (Map.adjust (key node_id) (updated changes) nodes)
  ]
  apply_operation (delete id order node_id reason) nodes =
      ok (Map.adjust (key node_id) (with_status rejected) nodes)
  apply_operation (status_change id order node_id new_status old_status reason) nodes =
      ok (Map.adjust (key node_id) (with_status new_status) nodes)

  -- The loop over the sorted operations: an error ends it, and what was written stays.
  unfoldable pub apply_operations :
      List Operation → Map ContextNode → Result StoreError (Unit {0}) × Map ContextNode
  apply_operations [] nodes = (ok tt, nodes)
  apply_operations (op ∷ ops) nodes = elim (apply_operation op nodes) [
    | ok nodes' ↦ apply_operations ops nodes'
    | err e ↦ (err e, nodes)
  ]

-- The first section: has the proposal been applied before?
unfoldable pub already_applied : String → InMemoryStore → Bool
already_applied id s = elim (Map.get id s.proposals) [ none ↦ false | some p ↦ p.status == applied ]

abbrev pub last_review_id : String → InMemoryStore → Option String
last_review_id id s = elim (last (unwrap_or (Map.get id s.reviews) [])) [
  | none ↦ none
  | some r ↦ some r.id
]

-- The second section: the operations of an accepted proposal, and its last review.
unfoldable pub read_accepted :
    String → InMemoryStore → Result StoreError (List Operation × Option String)
read_accepted id s = elim (Map.get id s.proposals) [
  | none ↦ err (not_found ("proposal " ++ id))
  | some p ↦
      if not (p.status == accepted)
      then err (invalid "only accepted proposals can be applied")
      else ok (p.operations, last_review_id id s)
]

-- The third section counts the revision.
unfoldable pub bump_revision : InMemoryStore → InMemoryStore
bump_revision s = record s { revision_counter = (s.revision_counter + 1) % 2 ^ 64 }

abbrev pub revision_id : ℕ → String
revision_id n = "rev_" ++ decimal n

abbrev pub mark_applied : AppliedMetadata → Proposal → Proposal
mark_applied meta p = record p { status = applied; applied = some meta }

abbrev pub applied_metadata : Runtime → String → String → Option String → ℕ → ℕ → AppliedMetadata
applied_metadata rt id applied_by review previous next = record {
  applied_at = rt.now;
  applied_by = applied_by;
  applied_from_review_id = review;
  applied_from_proposal_id = id;
  applied_to_revision_id = revision_id next;
  previous_revision_id = revision_id previous;
}

-- The last section runs only if every operation succeeded.
finish :
    String
    → AppliedMetadata
    → Result StoreError (Unit {0}) × Map ContextNode
    → Method InMemoryStore (Unit {0})
finish id meta (err e, nodes) s = (err e, record s { nodes = nodes })
finish id meta (ok done, nodes) s =
    (ok tt, record s { nodes = nodes; proposals = Map.adjust id (mark_applied meta) s.proposals })

unfoldable pub commit :
    Runtime → String → String → List Operation × Option String → Method InMemoryStore (Unit {0})
unfolding finish bump_revision
commit rt id applied_by (ops, review) s =
    let s' = bump_revision s in
    finish id (applied_metadata rt id applied_by review s.revision_counter s'.revision_counter)
      (apply_operations rt rt.now applied_by (sort_by_order ops) s.nodes) s'

-- `apply_proposal`
unfoldable pub apply_proposal : Runtime → String → String → Method InMemoryStore (Unit {0})
unfolding already_applied read_accepted commit
apply_proposal rt id applied_by s =
    if already_applied id s then (ok tt, s) else elim (read_accepted id s) [
      | err e ↦ (err e, s)
      | ok found ↦ commit rt id applied_by found s
    ]
