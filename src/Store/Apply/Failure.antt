-- ===== src/Store/Apply/Failure.antt =====
-- Where an application of server/src/store/in_memory.rs stops, and what it leaves then.
use Prim.Native.String.{◌++◌}
use mathlib.Core.List
use context_first_docs.Prelude.{
  ℕ, ◌+◌, ◌%◌, ◌^◌, String, none, some, List, [], ◌∷◌, ◌≡◌, refl, sym, ap, ◌∙◌, Result-cases,
  Option-cases, inl, inr, ok, err,
}
use context_first_docs.Prelude.Map
use context_first_docs.Prelude.Map.{Map}
use context_first_docs.Types.Node.{ContextNode, NodeId, key}
use context_first_docs.Types.Proposal.{
  UpdateChanges, Operation, create, update, delete, status_change, Proposal, accepted,
}
use context_first_docs.Runtime.{Runtime}
use context_first_docs.Store.{StoreError, not_found, InMemoryStore}
use context_first_docs.Store.Apply.{
  apply_operation, apply_operations, apply_proposal, last_review_id,
}
use context_first_docs.Store.Apply.Sorting.{sort_by_order}
use context_first_docs.Store.Apply.Effects.{
  effects_at, update-missing, update-found, apply_operations-step, apply_operations-stop,
  apply_operations-get,
}
use context_first_docs.Store.Apply.Outcome.{
  applied_nodes, apply_proposal-accepted, commit-ok, commit-err,
}

-- An update that names no node.
pub record FailedUpdate (nodes : Map ContextNode) (op : Operation) (e : StoreError) : Type 0 where
  pub id : String
  pub order : ℕ
  pub node_id : NodeId
  pub changes : UpdateChanges
  pub is : op ≡ update id order node_id changes
  pub missing : Map.get (key node_id) nodes ≡ none
  pub error : e ≡ not_found ("node " ++ key node_id)

-- The operations before the first one that fails ran with success, and left these nodes; the failing
-- one is an update of a node that is not among them.
pub record Stopped (rt : Runtime) (at by : String) (ops : List Operation)
    (nodes left : Map ContextNode) (e : StoreError) : Type 0 where
  pub before : List Operation
  pub failing : Operation
  pub after : List Operation
  pub split : ops ≡ List.◌++◌ before (failing ∷ after)
  pub ran : (apply_operations rt at by before nodes).0 ≡ ok tt
  pub written : (k : String) → Map.get k left ≡ effects_at rt at by k before (Map.get k nodes)
  pub why : FailedUpdate left failing e

module _ (rt : Runtime) (at by : String) where
  operation-FailedUpdate :
      (op : Operation) (nodes : Map ContextNode) (e : StoreError)
      → apply_operation rt at by op nodes ≡ err e
      → FailedUpdate nodes op e
  unfolding apply_operation
  operation-FailedUpdate (update id order node_id changes) nodes e h =
      elim (Option-cases (Map.get (key node_id) nodes)) [
        | inl missing ↦ record {
          id = id;
          order = order;
          node_id = node_id;
          changes = changes;
          is = refl;
          missing = missing;
          error = cc (h, update-missing rt at by id order node_id changes nodes missing);
        }
        | inr (n, found) ↦ cc (h, update-found rt at by id order node_id changes nodes found)
      ]
  operation-FailedUpdate (create id order node) nodes e h = cc
  operation-FailedUpdate (delete id order node_id reason) nodes e h = cc
  operation-FailedUpdate (status_change id order node_id s r reason) nodes e h = cc

  -- The loop, with the nodes that it leaves as those of the operations before.
  abbrev StopsAt : List Operation → Map ContextNode → StoreError → Type 0
  StopsAt ops nodes e =
      (before : List Operation) × (failing : Operation) × (after : List Operation) × (ops
        ≡ List.◌++◌ before (failing ∷ after))
      × (apply_operations rt at by before nodes ≡ (ok tt, (apply_operations rt at by ops nodes).1))
      × FailedUpdate (apply_operations rt at by ops nodes).1 failing e

  operations-StopsAt :
      (ops : List Operation) (nodes : Map ContextNode) (e : StoreError)
      → (apply_operations rt at by ops nodes).0 ≡ err e
      → StopsAt ops nodes e
  unfolding apply_operations
  operations-StopsAt [] nodes e h = cc
  operations-StopsAt (op ∷ ops) nodes e h =
      elim (Result-cases (apply_operation rt at by op nodes)) [
        | inl (nodes', good) ↦
            let step = apply_operations-step rt at by op ops nodes nodes' good in
            let (before, failing, after, split, ran, why) =
              operations-StopsAt ops nodes' e (rw step at h) in
            rw step (
              op ∷ before,
              failing,
              after,
              ap (λ xs. op ∷ xs) split,
              apply_operations-step rt at by op before nodes nodes' good ∙ ran,
              why,
            )
        | inr (x, bad) ↦
            let stop = apply_operations-stop rt at by op ops nodes x bad in
            let same : x ≡ e = cc (h, stop) in
            rw stop ([], op, ops, refl, refl, operation-FailedUpdate op nodes e (rw same at bad))
      ]

  pub operations-Stopped :
      (ops : List Operation) (nodes : Map ContextNode) (e : StoreError)
      → (apply_operations rt at by ops nodes).0 ≡ err e
      → Stopped rt at by ops nodes (apply_operations rt at by ops nodes).1 e
  operations-Stopped ops nodes e h =
      let (before, failing, after, split, ran, why) = operations-StopsAt ops nodes e h in
      let good = ap (λ r. r.0) ran in
      record {
        before = before;
        failing = failing;
        after = after;
        split = split;
        ran = good;
        written = λ k.
            ap (λ r. Map.get k r.1) (sym ran) ∙ apply_operations-get rt at by before nodes k good;
        why = why;
      }

-- An application of an accepted proposal that ends in an error has stopped at an update whose node
-- was missing at that point: the operations before it, in their sorted order, succeeded, each node
-- is what they make of it, the revision has been counted, and nothing else changes.
pub apply_proposal-failed :
    (rt : Runtime) (id by : String) (s : InMemoryStore) {p : Proposal} {e : StoreError}
    → Map.get id s.proposals ≡ some p
    → p.status ≡ accepted
    → (apply_proposal rt id by s).0 ≡ err e
    → let s' = (apply_proposal rt id by s).1 in
      Stopped rt rt.now by (sort_by_order p.operations) s.nodes s'.nodes e
      × (s' ≡ record s { nodes = s'.nodes; revision_counter = (s.revision_counter + 1) % 2 ^ 64 })
apply_proposal-failed rt id by s {p} {e} found was h =
    let same = apply_proposal-accepted rt id by s found was in
    elim (Result-cases (applied_nodes rt by s p).0) [
      | inl (done, good) ↦
          cc (h, same, commit-ok rt id by p.operations (last_review_id id s) s good)
      | inr (x, bad) ↦
          let left = same ∙ commit-err rt id by p.operations (last_review_id id s) s bad in
          let is : x ≡ e = cc (h, left) in
          rw left (
            operations-Stopped rt rt.now by (sort_by_order p.operations) s.nodes e (rw is at bad),
            refl,
          )
    ]
