-- ===== src/FileStore/Lost.antt =====
-- What is found when the store of server/src/store/file_store.rs is opened after `apply_proposal` has
-- blocked.
use context_first_docs.Prelude.{
  String, some, ◌≡◌, ◌≢◌, refl, ◌∙◌, arith, string_eq, eq_iff, ◌+◌, ◌%◌, ◌^◌, ok, Result-cases, inl,
  inr, All,
}
use context_first_docs.Prelude.Map
use context_first_docs.Types.Proposal.{Proposal, applied, status_eq}
use context_first_docs.Runtime.{Runtime}
use context_first_docs.Store.Apply.{mark_applied}
use context_first_docs.FileStore.{
  Codec, FileStore, blocked, save_proposal, json_file, proposals_dir,
}
use context_first_docs.FileStore.Loading.{new}
use context_first_docs.FileStore.Apply.{apply_proposal, apply_found, apply_operations, metadata_of}
use context_first_docs.FileStore.Consistent.{ReadsBack}
use context_first_docs.FileStore.Consistent.Saves.{save_proposal-Mirrors}
use context_first_docs.FileStore.Saving.{save-faults}
use context_first_docs.FileStore.Reopening.{Reopened, new-Reopened}
use context_first_docs.FileStore.Blocked.{Sound, HasPlainName, with_nodes, apply_operations-Sound}

abbrev count_again : FileStore → FileStore → FileStore
count_again s t = record t { revision_counter = s.revision_counter }

module _ (rt : Runtime) (codec : Codec) (reads : ReadsBack codec) (id by : String) (s : FileStore)
    (p : Proposal) where
  abbrev marked : Proposal
  marked = mark_applied (metadata_of rt id by s.revision_counter) p

  -- What the call leaves where it blocks.
  abbrev left : FileStore
  left =
      let r = apply_operations rt codec s.root p.operations (s.nodes, s.disk) in
      let saved = save_proposal codec s.root marked r.1.1 in
      record s {
        nodes = r.1.0;
        proposals = Map.adjust id (λ _. marked) s.proposals;
        revision_counter = (s.revision_counter + 1) % 2 ^ 64;
        disk = saved.1;
      }

  apply_found-blocked :
      (apply_found rt codec id by p s).0 ≡ blocked
      → ((apply_operations rt codec s.root p.operations (s.nodes, s.disk)).0 ≡ ok tt)
        × ((save_proposal codec s.root marked
              (apply_operations rt codec s.root p.operations (s.nodes, s.disk)).1.1).0
            ≡ ok tt)
        × ((apply_found rt codec id by p s).1 ≡ left)
  unfolding apply_found
  apply_found-blocked h =
      let r = apply_operations rt codec s.root p.operations (s.nodes, s.disk) in
      elim (Result-cases r.0) [
        | inr (e, bad) ↦ absurd (ground arith)
        | inl (done, good) ↦ elim (Result-cases (save_proposal codec s.root marked r.1.1).0) [
          | inr (e, bad) ↦ absurd (ground arith)
          | inl (done', good') ↦ ground arith
        ]
      ]

  -- Where an application of the file store has blocked, the store that is opened from its disk has
  -- everything that the application did, the proposal marked as applied, but the revision from
  -- before it, provided that the disk showed the store, what is printed parses back, and the nodes
  -- of its operations can name files.
  pub apply_proposal-Reopened :
      Sound codec s
      → Map.get id s.proposals ≡ some p
      → p.status ≢ applied
      → All HasPlainName p.operations
      → (apply_proposal rt codec id by s).0 ≡ blocked
      → let s' = (apply_proposal rt codec id by s).1 in
        (t : FileStore) × ((new codec s'.root s'.disk).0 ≡ ok t)
        × Reopened (record s' { revision_counter = s.revision_counter }) t
        × (Map.get id t.proposals ≡ some marked)
        × (s'.revision_counter ≡ (s.revision_counter + 1) % 2 ^ 64)
  unfolding apply_proposal save_proposal
  apply_proposal-Reopened h found other plain stuck =
      let same : apply_proposal rt codec id by s ≡ apply_found rt codec id by p s = ground arith in
      let (applied_all, saved, leaves) = apply_found-blocked (rw same at stuck) in
      let s1 = with_nodes (apply_operations rt codec s.root p.operations (s.nodes, s.disk)).1 s in
      let h1 = apply_operations-Sound rt codec reads s p.operations h plain applied_all in
      let (names, plain_id) = h.mirrors.proposals.named id p found in
      let ms =
        save_proposal-Mirrors codec reads s1 h1.mirrors marked
          (Map.adjust id (λ _. marked) s.proposals) (rw names plain_id)
          (λ j.
            rw names (ground (arith, Map.get-adjust id j (λ _. marked) s.proposals, eq_iff id j)))
          saved in
      let calm =
        save-faults codec.proposal (json_file (proposals_dir s.root) marked.id) marked s1.disk
          h1.calm in
      let (t, opened, again) =
        new-Reopened codec (record left { revision_counter = s.revision_counter }) ms calm in
      (
        t,
        rw (same, leaves) opened,
        rw (same, leaves) again,
        again.proposals id
            ∙ ground (arith, Map.get-adjust id id (λ _. marked) s.proposals, eq_iff id id),
        rw (same, leaves) refl,
      )
