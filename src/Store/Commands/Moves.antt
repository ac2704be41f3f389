-- ===== src/Store/Commands/Moves.antt =====
-- The status of a proposal of server/src/store/in_memory.rs, and the moves of its life.
use mathlib.Core.Option
use context_first_docs.Prelude.{
  String, Option, none, some, ◌≡◌, ◌==◌, string_eq, eq_iff, Bool-cases, Option-cases, Result,
  Result-cases, inl, inr, ok,
}
use context_first_docs.Prelude.Map
use context_first_docs.Prelude.Map.{get-insert, get-adjust}
use context_first_docs.Types.Proposal.{
  Proposal, ProposalStatus, status_eq, accepted, rejected, withdrawn, applied,
}
use context_first_docs.Store.{StoreError, InMemoryStore}
use context_first_docs.Store.Proposals.Frame.{
  with_proposal-missing, with_proposal-err, with_proposal-ok,
}
use context_first_docs.Store.Proposals.{with_proposal}

-- The status of the proposal under an id, if there is one.
abbrev pub status_of : String → InMemoryStore → Option ProposalStatus
status_of id s = Option.map (λ (p : Proposal). p.status) (Map.get id s.proposals)

-- One move of the life of a proposal, as the documents have it: `none` is a proposal that is not
-- there.
pub data Move : Option ProposalStatus → Option ProposalStatus → Type 0 where
  stay : (o : Option ProposalStatus) → Move o o
  submit : Move none (some ProposalStatus.«open»)
  accept : Move (some ProposalStatus.«open») (some accepted)
  reject : Move (some ProposalStatus.«open») (some rejected)
  withdraw : Move (some ProposalStatus.«open») (some withdrawn)
  apply : Move (some accepted) (some applied)

module _ (R : Option ProposalStatus → Option ProposalStatus → Type 0)
    (same : (o : Option ProposalStatus) → R o o) where
  pub adjust-status :
      (id : String) (s : InMemoryStore) (j : String) (f : Proposal → Proposal) (p : Proposal)
      → Map.get id s.proposals ≡ some p
      → R (some p.status) (some (f p).status)
      → R (status_of j s) (status_of j (record s { proposals = Map.adjust id f s.proposals }))
  adjust-status id s j f p found h = elim (Bool-cases (id == j)) [
    | inl own ↦ rw (get-adjust id j f s.proposals, own, ← (eq_iff id j).0 own, found) h
    | inr other ↦ rw (get-adjust id j f s.proposals, other) (same (status_of j s))
  ]

  -- A relation that a change of one proposal keeps holds for the proposal under every id.
  pub with_proposal-status :
      (id : String) (change : Proposal → Result StoreError Proposal) (s : InMemoryStore)
      (j : String)
      → ((p p' : Proposal) → change p ≡ ok p' → R (some p.status) (some p'.status))
      → R (status_of j s) (status_of j (with_proposal id change s).1)
  with_proposal-status id change s j keep = elim (Option-cases (Map.get id s.proposals)) [
    | inl missing ↦ rw (with_proposal-missing id change s missing) (same (status_of j s))
    | inr (p, found) ↦ elim (Result-cases (change p)) [
      | inr (e, failed) ↦ rw (with_proposal-err id change s found failed) (same (status_of j s))
      | inl (p', done) ↦
          rw (with_proposal-ok id change s found done)
            (adjust-status id s j (λ _. p') p found (keep p p' done))
    ]
  ]
