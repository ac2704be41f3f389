-- ===== src/Store/Apply/Fields.antt =====
-- What `apply_proposal` leaves in each field of the in-memory store, whether it succeeds or not.
use context_first_docs.Prelude.{
  ◌+◌, ◌%◌, ◌^◌, String, Option, some, List, ◌≡◌, ◌⊎◌, inl, inr, refl, arith, string_eq, Result,
  Result-cases, Option-cases, Bool-cases,
}
use context_first_docs.Prelude.Map
use context_first_docs.Prelude.Map.{Map, get-adjust}
use context_first_docs.Types.Node.{ContextNode}
use context_first_docs.Types.Proposal.{
  Proposal, accepted, applied, AppliedMetadata, Operation, status_beq, status_beq_iff,
}
use context_first_docs.Runtime.{Runtime}
use context_first_docs.Store.{StoreError, InMemoryStore}
use context_first_docs.Store.Apply.{
  mark_applied, applied_metadata, commit, apply_proposal, apply_operations, last_review_id,
}
use context_first_docs.Store.Apply.Sorting.{sort_by_order}
use context_first_docs.Store.Apply.Outcome.{
  commit-ok, commit-err, apply_proposal-applied, apply_proposal-accepted, apply_proposal-missing,
  apply_proposal-refused,
}

commit-nodes :
    (rt : Runtime) (id by : String) (ops : List Operation) (review : Option String)
    (s : InMemoryStore)
    → (commit rt id by (ops, review) s).1.nodes
      ≡ (apply_operations rt rt.now by (sort_by_order ops) s.nodes).1
commit-nodes rt id by ops review s =
    elim (Result-cases (apply_operations rt rt.now by (sort_by_order ops) s.nodes).0) [
      | inl (done, good) ↦ rw (commit-ok rt id by ops review s good)
      | inr (e, bad) ↦ rw (commit-err rt id by ops review s bad)
    ]

-- An application changes nothing, or it commits the operations of an accepted proposal.
pub apply_proposal-cases :
    (rt : Runtime) (id by : String) (s : InMemoryStore)
    → ((r : Result StoreError (Unit {0})) × (apply_proposal rt id by s ≡ (r, s)))
      ⊎ ((p : Proposal) × (Map.get id s.proposals ≡ some p)
          × (p.status ≡ accepted)
          × (apply_proposal rt id by s ≡ commit rt id by (p.operations, last_review_id id s) s))
apply_proposal-cases rt id by s = elim (Option-cases (Map.get id s.proposals)) [
  | inl missing ↦ inl (_, apply_proposal-missing rt id by s missing)
  | inr (p, found) ↦ elim (Bool-cases (status_beq p.status applied)) [
    | inl is ↦
        inl (_, apply_proposal-applied rt id by s found ((status_beq_iff p.status applied).0 is))
    | inr isnt ↦ elim (Bool-cases (status_beq p.status accepted)) [
      | inl acc ↦
          let was = (status_beq_iff p.status accepted).0 acc in
          inr (p, found, was, apply_proposal-accepted rt id by s found was)
      | inr other ↦ inl (_, apply_proposal-refused rt id by s found (ground arith) (ground arith))
    ]
  ]
]

-- The nodes after an application: those before it, or what the loop leaves.
pub apply_proposal-nodes :
    (P : Map ContextNode → Type 0) (rt : Runtime) (id by : String) (s : InMemoryStore)
    → P s.nodes
    → ((ops : List Operation) → P (apply_operations rt rt.now by ops s.nodes).1)
    → P (apply_proposal rt id by s).1.nodes
apply_proposal-nodes P rt id by s old new = elim (apply_proposal-cases rt id by s) [
  | inl (r, same) ↦ rw same old
  | inr (p, found, was, same) ↦
      rw (same, commit-nodes rt id by p.operations (last_review_id id s) s)
        (new (sort_by_order p.operations))
]

commit-log :
    (rt : Runtime) (id by : String) (ops : List Operation) (review : Option String)
    (s : InMemoryStore)
    → (commit rt id by (ops, review) s).1.audit_log ≡ s.audit_log
commit-log rt id by ops review s =
    elim (Result-cases (apply_operations rt rt.now by (sort_by_order ops) s.nodes).0) [
      | inl (done, good) ↦ rw (commit-ok rt id by ops review s good)
      | inr (e, bad) ↦ rw (commit-err rt id by ops review s bad)
    ]

pub apply_proposal-log :
    (rt : Runtime) (id by : String) (s : InMemoryStore)
    → (apply_proposal rt id by s).1.audit_log ≡ s.audit_log
apply_proposal-log rt id by s = elim (apply_proposal-cases rt id by s) [
  | inl (r, same) ↦ rw same
  | inr (p, found, was, same) ↦ rw same (commit-log rt id by p.operations (last_review_id id s) s)
]

-- A commit marks its proposal, or it leaves all proposals alone.
pub commit-proposals :
    (rt : Runtime) (id by : String) (ops : List Operation) (review : Option String)
    (s : InMemoryStore)
    → ((commit rt id by (ops, review) s).1.proposals ≡ s.proposals)
      ⊎ ((meta : AppliedMetadata) × ((commit rt id by (ops, review) s).1.proposals
            ≡ Map.adjust id (mark_applied meta) s.proposals))
commit-proposals rt id by ops review s =
    elim (Result-cases (apply_operations rt rt.now by (sort_by_order ops) s.nodes).0) [
      | inl (done, good) ↦ inr (
        applied_metadata rt id by review s.revision_counter ((s.revision_counter + 1) % 2 ^ 64),
        rw (commit-ok rt id by ops review s good) refl,
      )
      | inr (e, bad) ↦ inl (rw (commit-err rt id by ops review s bad) refl)
    ]
