-- ===== src/Store/Commands/Interleaved.antt =====
-- What holds while the sections of several applications run in any order, for server/src/store/in_memory.rs.
use context_first_docs.Prelude.{ℕ, zero, suc, String, List, [], ◌∷◌, ◌≡◌, refl, Result, ok, err}
use context_first_docs.Prelude.Map.{Map}
use context_first_docs.Types.Node.{ContextNode}
use context_first_docs.Types.Proposal.{AppliedMetadata}
use context_first_docs.Runtime.{Runtime}
use context_first_docs.Store.{StoreError, InMemoryStore}
use context_first_docs.Store.Apply.{apply_operations, bump_revision}
use context_first_docs.Store.Apply.Sorting.{sort_by_order}
use context_first_docs.Store.Apply.Sections.{
  Phase, called, checked, read, counted, written, returned, after_write, section, Client, World,
  run_nth, interleave,
}
use context_first_docs.Store.Commands.Safety.{AllGenuine, operations-AllGenuine}

module _ (rt : Runtime) where
  after_write-nodes :
      (id by : String) (meta : AppliedMetadata) (s : InMemoryStore)
      (o : Result StoreError (Unit {0}) × Map ContextNode)
      → (after_write rt id by meta s o).1.nodes ≡ o.1
  after_write-nodes id by meta s (ok done, nodes) = refl
  after_write-nodes id by meta s (err e, nodes) = refl

  section-AllGenuine :
      (id by : String) (phase : Phase) (s : InMemoryStore)
      → AllGenuine rt s.nodes
      → AllGenuine rt (section rt id by phase s).1.nodes
  unfolding section bump_revision
  section-AllGenuine id by called s h = h
  section-AllGenuine id by checked s h = h
  section-AllGenuine id by (read ops review) s h = h
  section-AllGenuine id by (counted ops meta) s h =
      rw
        (after_write-nodes id by meta s (apply_operations rt rt.now by (sort_by_order ops) s.nodes))
        (operations-AllGenuine rt rt.now by (sort_by_order ops) s.nodes h)
  section-AllGenuine id by (written meta) s h = h
  section-AllGenuine id by (returned r) s h = h

  run_nth-AllGenuine :
      (n : ℕ) (cs : List Client) (s : InMemoryStore)
      → AllGenuine rt s.nodes
      → AllGenuine rt (run_nth rt n cs s).1.nodes
  run_nth-AllGenuine n [] s h = h
  run_nth-AllGenuine zero (c ∷ cs) s h = section-AllGenuine c.id c.applied_by c.phase s h
  run_nth-AllGenuine (suc n) (c ∷ cs) s h = run_nth-AllGenuine n cs s h

-- However the sections of several applications are interleaved, every node stays under its own key
-- with the hash of its present content, if that held at the start.
pub interleave-AllGenuine :
    (rt : Runtime) (ns : List ℕ) (w : World)
    → AllGenuine rt w.store.nodes
    → AllGenuine rt (interleave rt ns w).store.nodes
unfolding interleave
interleave-AllGenuine rt [] w h = h
interleave-AllGenuine rt (n ∷ ns) w h =
    interleave-AllGenuine rt ns _ (run_nth-AllGenuine rt n w.clients w.store h)
