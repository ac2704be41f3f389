-- ===== src/FileStore/Commands/Durable.antt =====
-- The calls of the file store and the invariant that the disk has what the memory has.
use context_first_docs.Prelude.{
  String, some, [], ◌∷◌, ◌++◌, ◌≡◌, refl, ◌∙◌, arith, ◌==◌, string_eq, eq_iff, ok, Bool-cases,
  Option-cases, inl, inr, Result-cases,
}
use context_first_docs.Prelude.Map
use context_first_docs.Types.Json.{Json}
use context_first_docs.Types.Proposal.{Proposal, ProposalStatus, withdrawn, status_eq, Review}
use context_first_docs.Types.Audit.{AuditEvent}
use context_first_docs.FileStore.{
  Codec, FileStore, save_proposal, save_reviews, save_audit_log, proposals_dir, reviews_dir,
  audit_file, json_file,
}
use context_first_docs.FileStore.Calls
use context_first_docs.FileStore.Calls.{replace, patched, reviews_with}
use context_first_docs.FileStore.Saving.{save-faults}
use context_first_docs.FileStore.Consistent.{Mirrors, ReadsBack}
use context_first_docs.FileStore.Consistent.Saves.{
  save_proposal-Mirrors, save_reviews-Mirrors, save_audit_log-Mirrors,
}
use context_first_docs.FileStore.Commands.Clearing.{reset-Mirrors, reset-faults}
use context_first_docs.FileStore.Commands.{
  Command, create_proposal, update_proposal, submit_review, withdraw_proposal, append_audit, reset,
  execute, HasPlainNames, Reach, here, call,
}

module _ (codec : Codec) (reads : ReadsBack codec) (s : FileStore) (ms : Mirrors codec s) where
  create-Mirrors :
      (p : Proposal)
      → HasPlainNames (create_proposal p)
      → (Calls.create_proposal codec p s).0 ≡ ok tt
      → Mirrors codec (Calls.create_proposal codec p s).1
  unfolding Calls.create_proposal
  create-Mirrors p plain good = elim (Bool-cases (Map.contains_key p.id s.proposals)) [
    | inl old ↦ absurd (ground arith)
    | inr new ↦ elim (Result-cases (save_proposal codec s.root p s.disk).0) [
      | inr (e, bad) ↦ absurd (ground arith)
      | inl (done, saved) ↦
          rw (new, saved)
            (save_proposal-Mirrors codec reads s ms p (Map.insert p.id p s.proposals) plain
              (λ j. Map.get-insert p.id j p s.proposals) saved)
    ]
  ]

  -- A proposal in the table with a new value of the same name.
  replace-Mirrors :
      (id : String) (old p : Proposal)
      → Map.get id s.proposals ≡ some old
      → p.id ≡ old.id
      → (replace codec id p s).0 ≡ ok tt
      → Mirrors codec (replace codec id p s).1
  replace-Mirrors id old p there same good =
      let (names, plain) = ms.proposals.named id old there in
      let is : p.id ≡ id = same ∙ names in
      save_proposal-Mirrors codec reads s ms p (Map.adjust id (λ _. p) s.proposals) (rw is plain)
        (λ j. ground (arith, Map.get-adjust id j (λ _. p) s.proposals, eq_iff id j)) good

  update-Mirrors :
      (id : String) (updates : Json)
      → (Calls.update_proposal codec id updates s).0 ≡ ok tt
      → Mirrors codec (Calls.update_proposal codec id updates s).1
  unfolding Calls.update_proposal
  update-Mirrors id updates good = elim (Option-cases (Map.get id s.proposals)) [
    | inl missing ↦ absurd (ground arith)
    | inr (p, there) ↦
        let same : Calls.update_proposal codec id updates s
            ≡ replace codec id (patched updates p) s =
          ground arith in
        rw same (replace-Mirrors id p (patched updates p) there (ground arith) (rw same at good))
  ]

  withdraw-Mirrors :
      (id : String)
      → (Calls.withdraw_proposal codec id s).0 ≡ ok tt
      → Mirrors codec (Calls.withdraw_proposal codec id s).1
  unfolding Calls.withdraw_proposal
  withdraw-Mirrors id good = elim (Option-cases (Map.get id s.proposals)) [
    | inl missing ↦ absurd (ground arith)
    | inr (p, there) ↦ elim (Bool-cases (p.status == ProposalStatus.«open»)) [
      | inr other ↦ absurd (ground arith)
      | inl is ↦
          let p' = record p { status = withdrawn } in
          let same : Calls.withdraw_proposal codec id s ≡ replace codec id p' s = ground arith in
          rw same (replace-Mirrors id p p' there refl (rw same at good))
    ]
  ]

  append-Mirrors :
      (e : AuditEvent)
      → (Calls.append_audit codec e s).0 ≡ ok tt
      → Mirrors codec (Calls.append_audit codec e s).1
  unfolding Calls.append_audit
  append-Mirrors e good = save_audit_log-Mirrors codec reads s ms (s.audit_log ++ e ∷ []) good

  submit-Mirrors :
      (r : Review)
      → HasPlainNames (submit_review r)
      → (Calls.submit_review codec r s).0 ≡ ok tt
      → Mirrors codec (Calls.submit_review codec r s).1
  unfolding Calls.submit_review
  submit-Mirrors r plain good =
      save_reviews-Mirrors codec reads s ms r.proposal_id (reviews_with r s) plain good

-- Every call of the file store but an application that succeeds on a disk without faults keeps the
-- files of the disk equal to what the store has in memory, provided that what is printed parses
-- back and that a new id can name a file.
pub execute-Mirrors :
    (codec : Codec) (reads : ReadsBack codec) (c : Command) (s : FileStore)
    → Mirrors codec s
    → s.disk.faults ≡ []
    → HasPlainNames c
    → (execute codec c s).0 ≡ ok tt
    → Mirrors codec (execute codec c s).1
unfolding execute
execute-Mirrors codec reads (create_proposal p) s ms calm plain good =
    create-Mirrors codec reads s ms p plain good
execute-Mirrors codec reads (update_proposal id updates) s ms calm plain good =
    update-Mirrors codec reads s ms id updates good
execute-Mirrors codec reads (submit_review r) s ms calm plain good =
    submit-Mirrors codec reads s ms r plain good
execute-Mirrors codec reads (withdraw_proposal id) s ms calm plain good =
    withdraw-Mirrors codec reads s ms id good
execute-Mirrors codec reads (append_audit e) s ms calm plain good =
    append-Mirrors codec reads s ms e good
execute-Mirrors codec reads reset s ms calm plain good = reset-Mirrors s calm codec ms

-- A disk where nothing fails stays one.
execute-faults :
    (codec : Codec) (c : Command) (s : FileStore)
    → s.disk.faults ≡ []
    → (execute codec c s).1.disk.faults ≡ []
unfolding execute Calls.create_proposal Calls.update_proposal Calls.submit_review
    Calls.withdraw_proposal Calls.append_audit save_proposal save_reviews save_audit_log
execute-faults codec (create_proposal p) s calm =
    ground (arith, save-faults codec.proposal (json_file (proposals_dir s.root) p.id) p s.disk calm)
execute-faults codec (update_proposal id updates) s calm =
    elim (Option-cases (Map.get id s.proposals)) [
      | inl missing ↦ ground arith
      | inr (p, there) ↦
          let p' = patched updates p in
          ground (
            arith,
            save-faults codec.proposal (json_file (proposals_dir s.root) p'.id) p' s.disk calm,
          )
    ]
execute-faults codec (submit_review r) s calm =
    save-faults codec.reviews (json_file (reviews_dir s.root) r.proposal_id) (reviews_with r s)
      s.disk calm
execute-faults codec (withdraw_proposal id) s calm = elim (Option-cases (Map.get id s.proposals)) [
  | inl missing ↦ ground arith
  | inr (p, there) ↦
      let p' = record p { status = withdrawn } in
      ground
        (arith, save-faults codec.proposal (json_file (proposals_dir s.root) p'.id) p' s.disk calm)
]
execute-faults codec (append_audit e) s calm =
    save-faults codec.audit (audit_file s.root) (s.audit_log ++ e ∷ []) s.disk calm
execute-faults codec reset s calm = reset-faults s calm

pub Reach-Mirrors :
    (codec : Codec) (reads : ReadsBack codec) {s t : FileStore}
    → Mirrors codec s
    → s.disk.faults ≡ []
    → Reach codec s t
    → Mirrors codec t × (t.disk.faults ≡ [])
Reach-Mirrors codec reads ms calm here = (ms, calm)
Reach-Mirrors codec reads ms calm (call {t} before c plain good) =
    let (ms', calm') = Reach-Mirrors codec reads ms calm before in
    (execute-Mirrors codec reads c t ms' calm' plain good, execute-faults codec c t calm')
