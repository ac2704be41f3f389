-- ===== src/Store/Apply/Effects.antt =====
-- The loop over the operations of server/src/store/in_memory.rs against what it means for the node
-- under one key.
use Prim.Native.String.{◌++◌}
use mathlib.Core.Option
use context_first_docs.Prelude.{
  ℕ, String, Option, none, some, List, [], ◌∷◌, ◌≡◌, inl, inr, refl, ◌==◌, string_eq, if◌then◌else◌,
  ok, err, Option-cases, Result-cases, ap, ◌∙◌,
}
use context_first_docs.Prelude.Map
use context_first_docs.Prelude.Map.{Map, get-insert, get-adjust}
use context_first_docs.Types.Node.{ContextNode, NodeId, rejected, key}
use context_first_docs.Types.Proposal.{
  Operation, create, update, delete, status_change, UpdateChanges,
}
use context_first_docs.Runtime.{Runtime}
use context_first_docs.Store.{StoreError, not_found}
use context_first_docs.Store.Conflicts.{target}
use context_first_docs.Store.Apply.{
  created, updated, with_status, apply_operation, apply_operations,
}

module _ (rt : Runtime) (at by : String) where
  -- What an operation makes of its own node.
  abbrev pub effect : Operation → Option ContextNode → Option ContextNode
  effect (create id order node) found = some (created rt at by node)
  effect (update id order node_id changes) found = Option.map (updated rt at by changes) found
  effect (delete id order node_id reason) found = Option.map (with_status rt at by rejected) found
  effect (status_change id order node_id new_status old_status reason) found =
      Option.map (with_status rt at by new_status) found

  -- The operations on one key, in sequence; the others do not concern it.
  abbrev pub effects_at : String → List Operation → Option ContextNode → Option ContextNode
  effects_at k [] found = found
  effects_at k (op ∷ ops) found =
      effects_at k ops (if key (target op) == k then effect op found else found)

  module _ (id : String) (order : ℕ) (node_id : NodeId) (changes : UpdateChanges)
      (nodes : Map ContextNode) where
    -- An update of a node that is not there fails.
    pub update-missing :
        Map.get (key node_id) nodes ≡ none
        → apply_operation rt at by (update id order node_id changes) nodes
          ≡ err (not_found ("node " ++ key node_id))
    unfolding apply_operation
    update-missing e = rw (e, apply_operation)

    pub update-found :
        {n : ContextNode}
        → Map.get (key node_id) nodes ≡ some n
        → apply_operation rt at by (update id order node_id changes) nodes
          ≡ ok (Map.adjust (key node_id) (updated rt at by changes) nodes)
    unfolding apply_operation
    update-found e = rw (e, apply_operation)

  pub apply_operation-get :
      (op : Operation) (nodes nodes' : Map ContextNode) (k : String)
      → apply_operation rt at by op nodes ≡ ok nodes'
      → Map.get k nodes'
        ≡ (if key (target op) == k then effect op (Map.get k nodes) else Map.get k nodes)
  unfolding apply_operation
  apply_operation-get (create id order node) nodes nodes' k h =
      let e : Map.insert (key node.id) (created rt at by node) nodes ≡ nodes' = cc in
      rw (← e) (get-insert (key node.id) k (created rt at by node) nodes)
  apply_operation-get (update id order node_id changes) nodes nodes' k h =
      elim (Option-cases (Map.get (key node_id) nodes)) [
        | inl missing ↦ cc (h, update-missing id order node_id changes nodes missing)
        | inr (n, found) ↦
            let e : Map.adjust (key node_id) (updated rt at by changes) nodes ≡ nodes' =
              cc (h, update-found id order node_id changes nodes found) in
            rw (← e) (get-adjust (key node_id) k (updated rt at by changes) nodes)
      ]
  apply_operation-get (delete id order node_id reason) nodes nodes' k h =
      let e : Map.adjust (key node_id) (with_status rt at by rejected) nodes ≡ nodes' = cc in
      rw (← e) (get-adjust (key node_id) k (with_status rt at by rejected) nodes)
  apply_operation-get (status_change id order node_id new_status old_status reason) nodes nodes' k
        h =
      let e : Map.adjust (key node_id) (with_status rt at by new_status) nodes ≡ nodes' = cc in
      rw (← e) (get-adjust (key node_id) k (with_status rt at by new_status) nodes)

  -- A failing operation leaves the nodes as they were, and ends the loop.
  pub apply_operations-step :
      (op : Operation) (ops : List Operation) (nodes nodes' : Map ContextNode)
      → apply_operation rt at by op nodes ≡ ok nodes'
      → apply_operations rt at by (op ∷ ops) nodes ≡ apply_operations rt at by ops nodes'
  unfolding apply_operations
  apply_operations-step op ops nodes nodes' e = rw (e, apply_operations)

  pub apply_operations-stop :
      (op : Operation) (ops : List Operation) (nodes : Map ContextNode) (x : StoreError)
      → apply_operation rt at by op nodes ≡ err x
      → apply_operations rt at by (op ∷ ops) nodes ≡ (err x, nodes)
  unfolding apply_operations
  apply_operations-stop op ops nodes x e = rw (e, apply_operations)

  -- Where the loop over the operations of a proposal succeeds, the node under each key is what the
  -- operations on that key make of it in sequence, and every other node is untouched.
  pub apply_operations-get :
      (ops : List Operation) (nodes : Map ContextNode) (k : String)
      → (apply_operations rt at by ops nodes).0 ≡ ok tt
      → Map.get k (apply_operations rt at by ops nodes).1 ≡ effects_at k ops (Map.get k nodes)
  unfolding apply_operations
  apply_operations-get [] nodes k h = refl
  apply_operations-get (op ∷ ops) nodes k h =
      elim (Result-cases (apply_operation rt at by op nodes)) [
        | inl (nodes', e) ↦
            let step = apply_operations-step op ops nodes nodes' e in
            rw step (
              apply_operations-get ops nodes' k (rw step at h)
              ∙ ap (effects_at k ops) (apply_operation-get op nodes nodes' k e))
        | inr (x, e) ↦ cc (apply_operations-stop op ops nodes x e)
      ]
