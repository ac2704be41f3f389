-- ===== src/Store/Proposals/Frame.antt =====
-- What the operations on proposals of server/src/store/in_memory.rs leave alone.
use Prim.Native.String.{◌++◌}
use context_first_docs.Prelude.{String, none, some, ◌≡◌, arith, string_eq, Result, ok, err}
use context_first_docs.Prelude.Map
use context_first_docs.Prelude.Map.{get-adjust}
use context_first_docs.Types.Json.{Json}
use context_first_docs.Types.Proposal.{Proposal, Comment, Review}
use context_first_docs.Runtime.{Runtime}
use context_first_docs.Store.{StoreError, not_found, InMemoryStore}
use context_first_docs.Store.Proposals.{
  with_proposal, review_proposal, withdraw, push_comment, patch, create_proposal, update_proposal,
  submit_review, withdraw_proposal, add_proposal_comment,
}

-- Two stores that differ at most in their proposals and reviews.
pub record SameRest (s t : InMemoryStore) : Type 0 where
  pub nodes : t.nodes ≡ s.nodes
  pub revision_counter : t.revision_counter ≡ s.revision_counter
  pub audit_log : t.audit_log ≡ s.audit_log

module _ (id : String) (change : Proposal → Result StoreError Proposal) (s : InMemoryStore) where
  pub with_proposal-missing :
      Map.get id s.proposals ≡ none
      → with_proposal id change s ≡ (err (not_found ("proposal " ++ id)), s)
  with_proposal-missing e = ground arith

  pub with_proposal-err :
      {p : Proposal} {x : StoreError}
      → Map.get id s.proposals ≡ some p
      → change p ≡ err x
      → with_proposal id change s ≡ (err x, s)
  with_proposal-err e h = rw (e, h, with_proposal)

  pub with_proposal-ok :
      {p p' : Proposal}
      → Map.get id s.proposals ≡ some p
      → change p ≡ ok p'
      → with_proposal id change s
        ≡ (ok tt, record s { proposals = Map.adjust id (λ _. p') s.proposals })
  with_proposal-ok e h = rw (e, h, with_proposal)

  pub with_proposal-SameRest : SameRest s (with_proposal id change s).1
  with_proposal-SameRest = ground arith

module _ (s : InMemoryStore) where
  pub create_proposal-SameRest : (p : Proposal) → SameRest s (create_proposal p s).1
  unfolding create_proposal
  create_proposal-SameRest p = ground arith

  pub update_proposal-SameRest :
      (rt : Runtime) (id : String) (updates : Json) → SameRest s (update_proposal rt id updates s).1
  unfolding update_proposal
  update_proposal-SameRest rt id updates = with_proposal-SameRest id (patch rt updates) s

  pub submit_review-SameRest : (r : Review) → SameRest s (submit_review r s).1
  unfolding submit_review
  submit_review-SameRest r =
      ground (arith, with_proposal-SameRest r.proposal_id (review_proposal r) s)

  pub withdraw_proposal-SameRest : (id : String) → SameRest s (withdraw_proposal id s).1
  unfolding withdraw_proposal
  withdraw_proposal-SameRest id = with_proposal-SameRest id withdraw s

  pub add_proposal_comment-SameRest :
      (id : String) (c : Comment) → SameRest s (add_proposal_comment id c s).1
  unfolding add_proposal_comment
  add_proposal_comment-SameRest id c = with_proposal-SameRest id (push_comment c) s
