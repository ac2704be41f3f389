-- ===== src/Store/Apply/Sections.antt =====
-- The sections of `apply_proposal` of server/src/store/in_memory.rs, each under its own locks, as the
-- steps of a call. Other calls may run between them.
use context_first_docs.Prelude.{
  ℕ, zero, suc, String, Option, List, [], ◌∷◌, ◌≡◌, refl, Bool-cases, Result-cases, inl, inr,
  Result, ok, err, if◌then◌else◌,
}
use context_first_docs.Prelude.Map
use context_first_docs.Prelude.Map.{Map}
use context_first_docs.Types.Node.{ContextNode}
use context_first_docs.Types.Proposal.{Operation, AppliedMetadata}
use context_first_docs.Runtime.{Runtime}
use context_first_docs.Store.{StoreError, InMemoryStore}
use context_first_docs.Store.Apply.{
  already_applied, read_accepted, bump_revision, applied_metadata, mark_applied, apply_operations,
  apply_proposal, finish,
}
use context_first_docs.Store.Apply.Sorting.{sort_by_order}

-- How far a call has come, with what it has read so far.
pub data Phase : Type 0 where
  called checked : Phase
  read : List Operation → Option String → Phase
  counted : List Operation → AppliedMetadata → Phase
  written : AppliedMetadata → Phase
  returned : Result StoreError (Unit {0}) → Phase

module _ (rt : Runtime) (id applied_by : String) where
  abbrev after_read : Result StoreError (List Operation × Option String) → Phase
  after_read (err e) = returned (err e)
  after_read (ok (ops, review)) = read ops review

  abbrev pub after_write :
      AppliedMetadata
      → InMemoryStore
      → Result StoreError (Unit {0}) × Map ContextNode
      → Phase × InMemoryStore
  after_write meta s (err e, nodes) = (returned (err e), record s { nodes = nodes })
  after_write meta s (ok done, nodes) = (written meta, record s { nodes = nodes })

  -- One section. A call that has returned does nothing more.
  unfoldable pub section : Phase → InMemoryStore → Phase × InMemoryStore
  section called s = (if already_applied id s then returned (ok tt) else checked, s)
  section checked s = (after_read (read_accepted id s), s)
  section (read ops review) s =
      let s' = bump_revision s in
      (
        counted ops
            (applied_metadata rt id applied_by review s.revision_counter s'.revision_counter),
        s',
      )
  section (counted ops meta) s =
      after_write meta s (apply_operations rt rt.now applied_by (sort_by_order ops) s.nodes)
  section (written meta) s =
      (returned (ok tt), record s { proposals = Map.adjust id (mark_applied meta) s.proposals })
  section (returned r) s = (returned r, s)

  -- The sections of a call that nothing interrupts.
  unfoldable alone : ℕ → Phase × InMemoryStore → Phase × InMemoryStore
  unfolding section
  alone zero c = c
  alone (suc n) (phase, s) = alone n (section phase s)

  section-after_write :
      (meta : AppliedMetadata) (s : InMemoryStore)
      (o : Result StoreError (Unit {0}) × Map ContextNode)
      → section (after_write meta s o).0 (after_write meta s o).1
        ≡ (returned (finish id meta o s).0, (finish id meta o s).1)
  unfolding section finish
  section-after_write meta s (ok done, nodes) = refl
  section-after_write meta s (err e, nodes) = refl

  -- The five sections of an application that nothing interrupts return what the application
  -- returns and leave the store that it leaves.
  alone-apply_proposal :
      (s : InMemoryStore)
      → alone 5 (called, s)
        ≡ (returned (apply_proposal rt id applied_by s).0, (apply_proposal rt id applied_by s).1)
  unfolding alone apply_proposal
  alone-apply_proposal s = elim (Bool-cases (already_applied id s)) [
    | inl before ↦ rw before refl
    | inr first ↦ elim (Result-cases (read_accepted id s)) [
      | inl (found, good) ↦
          rw (first, good)
            (section-after_write
              (applied_metadata rt id applied_by found.1 s.revision_counter
                (bump_revision s).revision_counter)
              (bump_revision s)
              (apply_operations rt rt.now applied_by (sort_by_order found.0) s.nodes))
      | inr (e, bad) ↦ rw (first, bad) refl
    ]
  ]

-- The calls of several clients on one store, each at its phase: any of them may run its next section.
pub record Client : Type 0 where
  pub id : String
  pub applied_by : String
  pub phase : Phase

pub record World : Type 0 where
  pub store : InMemoryStore
  pub clients : List Client

-- The `n`-th client runs its next section at the time of the runtime.
abbrev pub run_nth : Runtime → ℕ → List Client → InMemoryStore → List Client × InMemoryStore
run_nth rt n [] s = ([], s)
run_nth rt zero (c ∷ cs) s =
    let (phase, s') = section rt c.id c.applied_by c.phase s in
    (record c { phase = phase } ∷ cs, s')
run_nth rt (suc n) (c ∷ cs) s = let (cs', s') = run_nth rt n cs s in (c ∷ cs', s')

unfoldable pub interleave : Runtime → List ℕ → World → World
unfolding section
interleave rt [] w = w
interleave rt (n ∷ ns) w =
    let (clients, store) = run_nth rt n w.clients w.store in
    interleave rt ns (record { store = store; clients = clients })
