-- ===== src/FileStore/Blocking.antt =====
-- How `apply_proposal` of server/src/store/file_store.rs ends.
use context_first_docs.Prelude.{
  String, some, ◌≡◌, ◌≢◌, ◌⊎◌, refl, arith, string_eq, Result, ok, err, inl, inr,
}
use context_first_docs.Prelude.Map
use context_first_docs.Types.Proposal.{Proposal, applied, status_eq}
use context_first_docs.Runtime.{Runtime}
use context_first_docs.Store.{StoreError}
use context_first_docs.Disk.{Disk}
use context_first_docs.FileStore.{Codec, FileStore, Answer, returned, blocked, save_proposal}
use context_first_docs.FileStore.Apply.{Nodes, apply_proposal, apply_found, complete, finish}

-- A call that has begun to apply ends in an error or waits for ever.
abbrev pub NeverOk : Answer (Unit {0}) → Type 0
NeverOk a = ((e : StoreError) × (a ≡ returned (err e))) ⊎ (a ≡ blocked)

finish-NeverOk :
    (codec : Codec) (r : Result StoreError (Unit {0}) × Disk) (s : FileStore)
    → NeverOk (finish codec r s).0
unfolding finish
finish-NeverOk codec (err e, d) s = inl (e, refl)
finish-NeverOk codec (ok done, d) s = inr refl

complete-NeverOk :
    (codec : Codec) (id : String) (p : Proposal) (r : Result StoreError (Unit {0}) × Nodes)
    (s : FileStore)
    → NeverOk (complete codec id p r s).0
unfolding complete
complete-NeverOk codec id p (err e, (nodes, d)) s = inl (e, refl)
complete-NeverOk codec id p (ok done, (nodes, d)) s =
    finish-NeverOk codec (save_proposal codec s.root p d) _

apply_found-NeverOk :
    (rt : Runtime) (codec : Codec) (id by : String) (p : Proposal) (s : FileStore)
    → NeverOk (apply_found rt codec id by p s).0
unfolding apply_found
apply_found-NeverOk rt codec id by p s = complete-NeverOk codec id _ _ _

module _ (rt : Runtime) (codec : Codec) (id by : String) (s : FileStore) where
  -- Applying a proposal of the file store that is not applied never returns with success: it
  -- returns an error, or it never returns, since it waits for the lock of the counter that it
  -- holds.
  pub apply_proposal-NeverOk :
      (p : Proposal)
      → Map.get id s.proposals ≡ some p
      → p.status ≢ applied
      → NeverOk (apply_proposal rt codec id by s).0
  unfolding apply_proposal
  apply_proposal-NeverOk p found other =
      let same : apply_proposal rt codec id by s ≡ apply_found rt codec id by p s = ground arith in
      rw same (apply_found-NeverOk rt codec id by p s)
