-- ===== src/Store/Commands/Safety.antt =====
-- What holds of the nodes of the in-memory store after any calls: server/src/store/in_memory.rs.
use context_first_docs.Prelude.{
  String, Option, none, some, List, [], ◌∷◌, ◌≡◌, refl, arith, ◌==◌, string_eq, eq_iff, Bool-cases,
  Result-cases, inl, inr, ok,
}
use context_first_docs.Prelude.Map
use context_first_docs.Prelude.Map.{Map}
use context_first_docs.Types.Node.{ContextNode, key}
use context_first_docs.Types.Proposal.{Operation, create, update, delete, status_change}
use context_first_docs.Runtime.{Runtime, content_hash}
use context_first_docs.Store.{InMemoryStore, new}
use context_first_docs.Store.Conflicts.{target}
use context_first_docs.Store.Apply.{apply_operation, apply_operations}
use context_first_docs.Store.Apply.Effects.{
  effect, apply_operation-get, apply_operations-step, apply_operations-stop,
}
use context_first_docs.Store.Apply.Fields.{apply_proposal-nodes}
use context_first_docs.Store.Proposals.Frame.{
  create_proposal-SameRest, update_proposal-SameRest, submit_review-SameRest,
  withdraw_proposal-SameRest, add_proposal_comment-SameRest,
}
use context_first_docs.Store.AuditLog
use context_first_docs.Store.Commands.{
  Command, create_proposal, update_proposal, submit_review, apply_proposal, withdraw_proposal,
  add_proposal_comment, reset, append_audit, at_time, execute, run, run_induction,
}

-- A node under this key has it as its key, and carries the hash of its content.
abbrev pub IsGenuine : Runtime → String → Option ContextNode → Type 0
IsGenuine rt k none = Unit
IsGenuine rt k (some n) =
    (key n.id ≡ k) × (n.metadata.content_hash ≡ some (rt.sha256_hex n.content))

pub record AllGenuine (rt : Runtime) (nodes : Map ContextNode) : Type 0 where
  pub at_key : (k : String) → IsGenuine rt k (Map.get k nodes)

module _ (rt : Runtime) (now by : String) where
  effect-IsGenuine :
      (op : Operation) (k : String) (found : Option ContextNode)
      → key (target op) ≡ k
      → IsGenuine rt k found
      → IsGenuine rt k (effect (at_time rt now) now by op found)
  unfolding content_hash
  effect-IsGenuine (create id order node) k found e h = (e, refl)
  effect-IsGenuine (update id order node_id changes) k none e h = tt
  effect-IsGenuine (update id order node_id changes) k (some n) e h = ground arith
  effect-IsGenuine (delete id order node_id reason) k none e h = tt
  effect-IsGenuine (delete id order node_id reason) k (some n) e h = h
  effect-IsGenuine (status_change id order node_id s r reason) k none e h = tt
  effect-IsGenuine (status_change id order node_id s r reason) k (some n) e h = h

  operation-AllGenuine :
      (op : Operation) (nodes nodes' : Map ContextNode)
      → apply_operation (at_time rt now) now by op nodes ≡ ok nodes'
      → AllGenuine rt nodes
      → AllGenuine rt nodes'
  operation-AllGenuine op nodes nodes' e h = record {
    at_key = λ k.
        let same = apply_operation-get (at_time rt now) now by op nodes nodes' k e in
        elim (Bool-cases (key (target op) == k)) [
          | inl own ↦
              rw (same, own)
                (effect-IsGenuine op k (Map.get k nodes) ((eq_iff (key (target op)) k).0 own)
                  (h.at_key k))
          | inr other ↦ rw (same, other) (h.at_key k)
        ];
  }

  pub operations-AllGenuine :
      (ops : List Operation) (nodes : Map ContextNode)
      → AllGenuine rt nodes
      → AllGenuine rt (apply_operations (at_time rt now) now by ops nodes).1
  unfolding apply_operations
  operations-AllGenuine [] nodes h = h
  operations-AllGenuine (op ∷ ops) nodes h =
      elim (Result-cases (apply_operation (at_time rt now) now by op nodes)) [
        | inl (nodes', e) ↦
            rw (apply_operations-step (at_time rt now) now by op ops nodes nodes' e)
              (operations-AllGenuine ops nodes' (operation-AllGenuine op nodes nodes' e h))
        | inr (x, e) ↦ rw (apply_operations-stop (at_time rt now) now by op ops nodes x e) h
      ]

pub execute-AllGenuine :
    (rt : Runtime) (c : Command) (s : InMemoryStore)
    → AllGenuine rt s.nodes
    → AllGenuine rt (execute rt c s).1.nodes
unfolding execute
execute-AllGenuine rt (create_proposal p) s h = rw ((create_proposal-SameRest s p).nodes) h
execute-AllGenuine rt (update_proposal id updates) s h =
    rw ((update_proposal-SameRest s rt id updates).nodes) h
execute-AllGenuine rt (submit_review r) s h = rw ((submit_review-SameRest s r).nodes) h
execute-AllGenuine rt (apply_proposal now id by) s h =
    apply_proposal-nodes (AllGenuine rt) (at_time rt now) id by s h
      (λ ops. operations-AllGenuine rt now by ops s.nodes h)
execute-AllGenuine rt (withdraw_proposal id) s h = rw ((withdraw_proposal-SameRest s id).nodes) h
execute-AllGenuine rt (add_proposal_comment id c) s h =
    rw ((add_proposal_comment-SameRest s id c).nodes) h
execute-AllGenuine rt reset s h = record { at_key = λ k. unfold AuditLog.reset Map.get in tt }
execute-AllGenuine rt (append_audit e) s h = unfold AuditLog.append_audit in h

-- After any calls of the in-memory store, from a new one, whether they succeed or not, every node
-- stands under its own key and carries the hash of its present content.
pub run-AllGenuine : (rt : Runtime) (cs : List Command) → AllGenuine rt (run rt cs new).nodes
run-AllGenuine rt cs =
    run_induction (λ s. AllGenuine rt s.nodes) rt (execute-AllGenuine rt) cs new
      (record { at_key = λ k. unfold Map.get in tt })
