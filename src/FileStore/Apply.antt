-- ===== src/FileStore/Apply.antt =====
-- `apply_proposal` of server/src/store/file_store.rs, which holds the write locks of the proposals,
-- the nodes and the counter from its first line to its last.
use Prim.Native.String.{◌++◌}
use context_first_docs.Prelude.{
  ℕ, String, Option, none, some, List, [], ◌∷◌, ◌+◌, ◌%◌, ◌^◌, true, Result, ok, err, ◌==◌,
  if◌then◌else◌, decimal,
}
use context_first_docs.Prelude.Map
use context_first_docs.Prelude.Map.{Map}
use context_first_docs.Types.Node.{ContextNode, NodeStatus, key}
use context_first_docs.Types.Proposal.{
  Proposal, applied, status_eq, UpdateChanges, Operation, create, update, delete, status_change,
  AppliedMetadata,
}
use context_first_docs.Runtime.{Runtime, content_hash}
use context_first_docs.Store.{StoreError, not_found}
use context_first_docs.Store.Apply.{next_version, mark_applied}
use context_first_docs.Disk.{Disk, remove_file}
use context_first_docs.FileStore.{
  Codec, FileStore, nodes_dir, json_file, save_node, save_proposal, save_revision, Answer, returned,
}

-- The nodes in memory, and the disk.
abbrev pub Nodes : Type 0
Nodes = Map ContextNode × Disk

module _ (rt : Runtime) where
  abbrev pub hashed : ContextNode → ContextNode
  hashed node = record node {
    metadata = record node.metadata { content_hash = some (content_hash rt node.content) };
  }

  abbrev with_content : Option String → ContextNode → ContextNode
  with_content none node = node
  with_content (some c) node = hashed (record node { content = c })

  abbrev with_status : Option NodeStatus → ContextNode → ContextNode
  with_status none node = node
  with_status (some s) node = record node { status = s }

  abbrev next : ContextNode → ContextNode
  next node = record node {
    metadata = record node.metadata { version = next_version node.metadata.version };
  }

  abbrev pub changed : UpdateChanges → ContextNode → ContextNode
  changed changes node = next (with_status changes.status (with_content changes.content node))

module _ (rt : Runtime) (codec : Codec) (root : String) where
  abbrev insert_saved :
      ContextNode
      → Map ContextNode
      → Result StoreError (Unit {0}) × Disk
      → Result StoreError (Unit {0}) × Nodes
  insert_saved node nodes (err e, d) = (err e, (nodes, d))
  insert_saved node nodes (ok done, d) = (ok tt, (Map.insert (key node.id) node nodes, d))

  -- `get_mut`, a change, and `save_node`
  abbrev pub change :
      String → (ContextNode → ContextNode) → Nodes → Result StoreError (Unit {0}) × Nodes
  change k f (nodes, d) = elim (Map.get k nodes) [
    | none ↦ (ok tt, (nodes, d))
    | some node ↦
        let (r, d') = save_node codec root (f node) d in (r, (Map.adjust k (λ _. f node) nodes, d'))
  ]

  -- One round of the loop. A node that is not there is passed over.
  unfoldable pub apply_operation : Operation → Nodes → Result StoreError (Unit {0}) × Nodes
  apply_operation (create id order node) (nodes, d) =
      insert_saved (hashed rt node) nodes (save_node codec root (hashed rt node) d)
  apply_operation (update id order node_id changes) n = change (key node_id) (changed rt changes) n
  apply_operation (delete id order node_id reason) (nodes, d) = (
    ok tt,
    (Map.remove (key node_id) nodes, (remove_file (json_file (nodes_dir root) (key node_id)) d).1),
  )
  apply_operation (status_change id order node_id new_status old_status reason) n =
      change (key node_id) (λ node. record node { status = new_status }) n

  -- The operations as they stand in the proposal: they are not sorted.
  unfoldable pub apply_operations : List Operation → Nodes → Result StoreError (Unit {0}) × Nodes
  unfolding apply_operation
  apply_operations [] n = (ok tt, n)
  apply_operations (op ∷ ops) n =
      let (r, n') = apply_operation op n in
      elim r [ err e ↦ (err e, n') | ok done ↦ apply_operations ops n' ]

abbrev pub revision_id : ℕ → String
revision_id n = "rev-" ++ decimal n

abbrev pub metadata_of : Runtime → String → String → ℕ → AppliedMetadata
metadata_of rt id applied_by rev = record {
  applied_at = rt.now;
  applied_by = applied_by;
  applied_from_review_id = none;
  applied_from_proposal_id = id;
  applied_to_revision_id = revision_id ((rev + 1) % 2 ^ 64);
  previous_revision_id = revision_id rev;
}

-- The end of the call: the proposal is saved as applied, and then the revision, under the write
-- lock of the counter.
unfoldable pub finish :
    Codec → Result StoreError (Unit {0}) × Disk → FileStore → Answer (Unit {0}) × FileStore
unfolding save_revision
finish codec (err e, d) s = (returned (err e), record s { disk = d })
finish codec (ok done, d) s =
    let (answer, d') = save_revision codec true (record s { disk = d }) in
    (answer, record s { disk = d' })

-- The rest of the call, after the loop.
unfoldable pub complete :
    Codec
    → String
    → Proposal
    → Result StoreError (Unit {0}) × Nodes
    → FileStore
    → Answer (Unit {0}) × FileStore
unfolding finish
complete codec id p (err e, (nodes, d)) s = (returned (err e), record s { nodes = nodes; disk = d })
complete codec id p (ok done, (nodes, d)) s =
    finish codec (save_proposal codec s.root p d)
      (record s { nodes = nodes; proposals = Map.adjust id (λ _. p) s.proposals; disk = d })

unfoldable pub apply_found :
    Runtime → Codec → String → String → Proposal → FileStore → Answer (Unit {0}) × FileStore
unfolding apply_operations complete
apply_found rt codec id applied_by p s =
    complete codec id (mark_applied (metadata_of rt id applied_by s.revision_counter) p)
      (apply_operations rt codec s.root p.operations (s.nodes, s.disk))
      (record s { revision_counter = (s.revision_counter + 1) % 2 ^ 64 })

unfoldable pub apply_proposal :
    Runtime → Codec → String → String → FileStore → Answer (Unit {0}) × FileStore
unfolding apply_found
apply_proposal rt codec id applied_by s = elim (Map.get id s.proposals) [
  | none ↦ (returned (err (not_found ("proposal " ++ id))), s)
  | some p ↦
      if p.status == applied then (returned (ok tt), s) else apply_found rt codec id applied_by p s
]
