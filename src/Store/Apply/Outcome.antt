-- ===== src/Store/Apply/Outcome.antt =====
-- What `apply_proposal` returns and changes on each of its branches, and its idempotence.
use Prim.Native.String.{◌++◌}
use context_first_docs.Prelude.{
  ◌+◌, ◌%◌, ◌^◌, String, Option, none, some, List, ◌≡◌, ◌≢◌, ◌⊎◌, inl, inr, refl, arith, eq_refl,
  string_eq, Result, ok, err, Result-cases, Option-cases, Bool-cases,
}
use context_first_docs.Prelude.Map
use context_first_docs.Prelude.Map.{Map, get-adjust}
use context_first_docs.Types.Node.{ContextNode}
use context_first_docs.Types.Proposal.{
  Proposal, accepted, applied, AppliedMetadata, Operation, status_beq, status_beq_iff,
}
use context_first_docs.Runtime.{Runtime}
use context_first_docs.Store.{StoreError, not_found, invalid, InMemoryStore}
use context_first_docs.Store.Apply.{
  already_applied, read_accepted, mark_applied, applied_metadata, commit, apply_proposal,
  apply_operations, last_review_id,
}
use context_first_docs.Store.Apply.Sorting.{sort_by_order}

-- Applying a proposal that was applied before changes nothing, whoever asks.
pub apply_proposal-applied :
    (rt : Runtime) (id by : String) (s : InMemoryStore) {p : Proposal}
    → Map.get id s.proposals ≡ some p
    → p.status ≡ applied
    → apply_proposal rt id by s ≡ (ok tt, s)
unfolding apply_proposal
apply_proposal-applied rt id by s e h = ground arith

pub apply_proposal-accepted :
    (rt : Runtime) (id by : String) (s : InMemoryStore) {p : Proposal}
    → Map.get id s.proposals ≡ some p
    → p.status ≡ accepted
    → apply_proposal rt id by s ≡ commit rt id by (p.operations, last_review_id id s) s
unfolding apply_proposal
apply_proposal-accepted rt id by s {p} e h =
    rw (e, apply_proposal, already_applied, read_accepted) (rw h)

pub apply_proposal-missing :
    (rt : Runtime) (id by : String) (s : InMemoryStore)
    → Map.get id s.proposals ≡ none
    → apply_proposal rt id by s ≡ (err (not_found ("proposal " ++ id)), s)
unfolding apply_proposal
apply_proposal-missing rt id by s e = rw (e, apply_proposal, already_applied, read_accepted)

-- A proposal that is neither accepted nor applied is refused, and nothing changes.
pub apply_proposal-refused :
    (rt : Runtime) (id by : String) (s : InMemoryStore) {p : Proposal}
    → Map.get id s.proposals ≡ some p
    → p.status ≢ accepted
    → p.status ≢ applied
    → apply_proposal rt id by s ≡ (err (invalid "only accepted proposals can be applied"), s)
unfolding apply_proposal
apply_proposal-refused rt id by s e h k = ground arith

-- The loop of an application at the given store.
abbrev pub applied_nodes :
    Runtime → String → InMemoryStore → Proposal → Result StoreError (Unit {0}) × Map ContextNode
applied_nodes rt by s p = apply_operations rt rt.now by (sort_by_order p.operations) s.nodes

abbrev pub metadata_of : Runtime → String → String → InMemoryStore → AppliedMetadata
metadata_of rt id by s =
    applied_metadata rt id by (last_review_id id s) s.revision_counter
      ((s.revision_counter + 1) % 2 ^ 64)

-- What a successful application was: a repeated one that changed nothing, or the first one of an
-- accepted proposal.
pub record Applied (rt : Runtime) (id by : String) (s : InMemoryStore) (p : Proposal) : Type 0 where
  pub found : Map.get id s.proposals ≡ some p
  pub was : p.status ≡ accepted
  pub succeeded : (applied_nodes rt by s p).0 ≡ ok tt
  pub left : (apply_proposal rt id by s).1 ≡ record s {
    nodes = (applied_nodes rt by s p).1;
    proposals = Map.adjust id (mark_applied (metadata_of rt id by s)) s.proposals;
    revision_counter = (s.revision_counter + 1) % 2 ^ 64;
  }

module _ (rt : Runtime) (id by : String) (ops : List Operation) (review : Option String)
    (s : InMemoryStore) where
  pub commit-ok :
      (apply_operations rt rt.now by (sort_by_order ops) s.nodes).0 ≡ ok tt
      → commit rt id by (ops, review) s ≡ (
        ok tt,
        record s {
          nodes = (apply_operations rt rt.now by (sort_by_order ops) s.nodes).1;
          proposals =
              Map.adjust id
                (mark_applied (
                  applied_metadata rt id by review s.revision_counter
                    ((s.revision_counter + 1) % 2 ^ 64)))
                s.proposals;
          revision_counter = (s.revision_counter + 1) % 2 ^ 64;
        },
      )
  unfolding commit
  commit-ok h = ground arith

  -- The nodes stay as the failing operation found them, and the revision has been counted.
  pub commit-err :
      {e : StoreError}
      → (apply_operations rt rt.now by (sort_by_order ops) s.nodes).0 ≡ err e
      → commit rt id by (ops, review) s ≡ (
        err e,
        record s {
          nodes = (apply_operations rt rt.now by (sort_by_order ops) s.nodes).1;
          revision_counter = (s.revision_counter + 1) % 2 ^ 64;
        },
      )
  unfolding commit
  commit-err h = ground arith

Applied-intro :
    (rt : Runtime) (id by : String) (s : InMemoryStore) (p : Proposal)
    → Map.get id s.proposals ≡ some p
    → p.status ≡ accepted
    → (apply_proposal rt id by s).0 ≡ ok tt
    → Applied rt id by s p
Applied-intro rt id by s p e h k =
    let same = apply_proposal-accepted rt id by s e h in
    elim (Result-cases (applied_nodes rt by s p).0) [
      | inl (done, good) ↦ record {
        found = e;
        was = h;
        succeeded = good;
        left = rw (same, commit-ok rt id by p.operations (last_review_id id s) s good) refl;
      }
      | inr (x, bad) ↦ cc (same, commit-err rt id by p.operations (last_review_id id s) s bad)
    ]

-- A successful application found the proposal applied and changed nothing, or found it accepted
-- and left the nodes of the loop, the proposal marked as applied with its metadata, and the
-- revision counted.
pub apply_proposal-ok :
    (rt : Runtime) (id by : String) (s : InMemoryStore)
    → (apply_proposal rt id by s).0 ≡ ok tt
    → (p : Proposal) × ((Map.get id s.proposals ≡ some p)
          × (p.status ≡ applied)
          × (apply_proposal rt id by s ≡ (ok tt, s))
        ⊎ Applied rt id by s p)
apply_proposal-ok rt id by s h = elim (Option-cases (Map.get id s.proposals)) [
  | inl missing ↦ cc (apply_proposal-missing rt id by s missing)
  | inr (p, found) ↦ elim (Bool-cases (status_beq p.status applied)) [
    | inl is ↦
        let e = (status_beq_iff p.status applied).0 is in
        (p, inl (found, e, apply_proposal-applied rt id by s found e))
    | inr isnt ↦ elim (Bool-cases (status_beq p.status accepted)) [
      | inl acc ↦ (p, inr (Applied-intro rt id by s p found (ground arith) h))
      | inr other ↦ cc (apply_proposal-refused rt id by s found (ground arith) (ground arith))
    ]
  ]
]

-- After a successful application, applying the same proposal again at any time and by anyone
-- succeeds and changes nothing.
pub apply_proposal_idempotent :
    (rt rt' : Runtime) (id by by' : String) (s : InMemoryStore)
    → (apply_proposal rt id by s).0 ≡ ok tt
    → apply_proposal rt' id by' (apply_proposal rt id by s).1
      ≡ (ok tt, (apply_proposal rt id by s).1)
apply_proposal_idempotent rt rt' id by by' s h =
    let (p, why) = apply_proposal-ok rt id by s h in
    elim why [
      | inl (found, was, same) ↦ rw same (apply_proposal-applied rt' id by' s found was)
      | inr first ↦
          apply_proposal-applied rt' id by' (apply_proposal rt id by s).1
            {p = mark_applied (metadata_of rt id by s) p}
            (rw first.left (rw get-adjust (rw (eq_refl, first.found)))) refl
    ]
