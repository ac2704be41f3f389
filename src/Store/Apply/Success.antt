-- ===== src/Store/Apply/Success.antt =====
-- When an application of server/src/store/in_memory.rs succeeds.
use context_first_docs.Prelude.{
  String, some, List, [], ◌∷◌, ◌≡◌, refl, ◌==◌, string_eq, Bool-cases, All-perm, inl, inr, ok, All,
}
use context_first_docs.Prelude.Map
use context_first_docs.Prelude.Map.{Map}
use context_first_docs.Types.Node.{ContextNode, key}
use context_first_docs.Types.Proposal.{
  Operation, create, update, delete, status_change, Proposal, accepted,
}
use context_first_docs.Runtime.{Runtime}
use context_first_docs.Store.{InMemoryStore}
use context_first_docs.Store.Conflicts.{target}
use context_first_docs.Store.Apply.{
  created, updated, apply_operation, apply_operations, apply_proposal, last_review_id,
}
use context_first_docs.Store.Apply.Sorting.{sort_by_order, sort_by_order-perm}
use context_first_docs.Store.Apply.Effects.{
  effect, apply_operation-get, update-found, apply_operations-step,
}
use context_first_docs.Store.Apply.Outcome.{apply_proposal-accepted, commit-ok}

-- There is a node under the key.
abbrev pub Has : Map ContextNode → String → Type 0
Has nodes k = (n : ContextNode) × (Map.get k nodes ≡ some n)

-- Only an update needs its node.
abbrev pub Needs : Map ContextNode → Operation → Type 0
Needs nodes (update id order node_id changes) = Has nodes (key node_id)
Needs nodes _ = Unit

module _ (rt : Runtime) (at by : String) where
  effect-some :
      (op : Operation) (n : ContextNode)
      → (m : ContextNode) × (effect rt at by op (some n) ≡ some m)
  effect-some (create id order node) n = (created rt at by node, refl)
  effect-some (update id order node_id changes) n = (updated rt at by changes n, refl)
  effect-some (delete id order node_id reason) n = (_, refl)
  effect-some (status_change id order node_id new_status old_status reason) n = (_, refl)

  -- No operation takes a node away.
  Has-operation :
      (op : Operation) (nodes nodes' : Map ContextNode) (k : String)
      → apply_operation rt at by op nodes ≡ ok nodes'
      → Has nodes k
      → Has nodes' k
  Has-operation op nodes nodes' k e (n, found) =
      let same = apply_operation-get rt at by op nodes nodes' k e in
      elim (Bool-cases (key (target op) == k)) [
        | inl own ↦ let (m, now) = effect-some op n in (m, rw (same, own, found) now)
        | inr other ↦ (n, rw (same, other) found)
      ]

  Needs-operation :
      (op : Operation) (nodes nodes' : Map ContextNode) (ops : List Operation)
      → apply_operation rt at by op nodes ≡ ok nodes'
      → All (Needs nodes) ops
      → All (Needs nodes') ops
  Needs-operation op nodes nodes' [] e h = tt
  Needs-operation op nodes nodes' (update id order node_id changes ∷ ops) e (h, hs) =
      (Has-operation op nodes nodes' (key node_id) e h, Needs-operation op nodes nodes' ops e hs)
  Needs-operation op nodes nodes' (create id order node ∷ ops) e (h, hs) =
      (tt, Needs-operation op nodes nodes' ops e hs)
  Needs-operation op nodes nodes' (delete id order node_id reason ∷ ops) e (h, hs) =
      (tt, Needs-operation op nodes nodes' ops e hs)
  Needs-operation op nodes nodes' (status_change id order node_id s r reason ∷ ops) e (h, hs) =
      (tt, Needs-operation op nodes nodes' ops e hs)

  apply_operation-succeeds :
      (op : Operation) (nodes : Map ContextNode)
      → Needs nodes op
      → (nodes' : Map ContextNode) × (apply_operation rt at by op nodes ≡ ok nodes')
  unfolding apply_operation
  apply_operation-succeeds (update id order node_id changes) nodes (n, found) =
      (_, update-found rt at by id order node_id changes nodes found)
  apply_operation-succeeds (create id order node) nodes h = (_, refl)
  apply_operation-succeeds (delete id order node_id reason) nodes h = (_, refl)
  apply_operation-succeeds (status_change id order node_id s r reason) nodes h = (_, refl)

  pub apply_operations-succeeds :
      (ops : List Operation) (nodes : Map ContextNode)
      → All (Needs nodes) ops
      → (apply_operations rt at by ops nodes).0 ≡ ok tt
  unfolding apply_operations
  apply_operations-succeeds [] nodes h = refl
  apply_operations-succeeds (op ∷ ops) nodes (h, hs) =
      let (nodes', e) = apply_operation-succeeds op nodes h in
      rw (apply_operations-step rt at by op ops nodes nodes' e)
        (apply_operations-succeeds ops nodes' (Needs-operation op nodes nodes' ops e hs))

-- An accepted proposal each of whose updates names a node of the store is applied with success.
pub apply_proposal-succeeds :
    (rt : Runtime) (id by : String) (s : InMemoryStore) {p : Proposal}
    → Map.get id s.proposals ≡ some p
    → p.status ≡ accepted
    → All (Needs s.nodes) p.operations
    → (apply_proposal rt id by s).0 ≡ ok tt
apply_proposal-succeeds rt id by s {p} found was h =
    let good =
      apply_operations-succeeds rt rt.now by (sort_by_order p.operations) s.nodes
        (All-perm (Needs s.nodes) (sort_by_order-perm p.operations) h) in
    rw
      (
        apply_proposal-accepted rt id by s found was,
        commit-ok rt id by p.operations (last_review_id id s) s good,
      )
      refl
