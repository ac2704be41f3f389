-- ===== src/Store/Proposals/Status.antt =====
-- The status that `update_proposal` of server/src/store/in_memory.rs leaves.
use context_first_docs.Prelude.{
  String, Option, none, some, List, ◌≡◌, ◌≢◌, inl, inr, refl, ◌∙◌, sym, arith, Result-cases, ok,
}
use context_first_docs.Types.Json.{Json, get_str}
use context_first_docs.Types.Proposal.{Proposal, ProposalStatus, applied, Comment}
use context_first_docs.Runtime.{Runtime}
use context_first_docs.Store.Proposals.{
  patch, patch_rest, parse_status, set_status, set_metadata, set_modified_at, set_modified_by,
  set_comments,
}

parse_status-ne-applied : (s : String) {st : ProposalStatus} → parse_status s ≡ ok st → st ≢ applied
unfolding parse_status
parse_status-ne-applied s h e = ground arith

set_comments-status :
    (o : Option (List Comment)) (p : Proposal) → (set_comments o p).status ≡ p.status
unfolding set_comments
set_comments-status none p = refl
set_comments-status (some cs) p = refl

set_modified_by-status :
    (o : Option String) (p : Proposal) → (set_modified_by o p).status ≡ p.status
unfolding set_modified_by
set_modified_by-status none p = refl
set_modified_by-status (some v) p = refl

set_modified_at-status :
    (o : Option String) (p : Proposal) → (set_modified_at o p).status ≡ p.status
unfolding set_modified_at
set_modified_at-status none p = refl
set_modified_at-status (some v) p = refl

set_metadata-status : (o : Option Json) (p : Proposal) → (set_metadata o p).status ≡ p.status
unfolding set_metadata
set_metadata-status none p = refl
set_metadata-status (some m) p =
    set_modified_by-status (get_str m "modified_by") (set_modified_at (get_str m "modified_at") p)
    ∙ set_modified_at-status (get_str m "modified_at") p

set_status-applied :
    (o : Option String) (p p' : Proposal)
    → set_status o p ≡ ok p'
    → p'.status ≡ applied
    → p.status ≡ applied
unfolding set_status
set_status-applied none p p' h e = ground arith
set_status-applied (some s) p p' h e = elim (Result-cases (parse_status s)) [
  | inl (st, good) ↦ ground (arith, parse_status-ne-applied s good)
  | inr (x, bad) ↦ ground arith
]

patch_rest-status :
    (rt : Runtime) (updates : Json) (p : Proposal) → (patch_rest rt updates p).status ≡ p.status
unfolding patch_rest
patch_rest-status rt updates p = set_comments-status _ _ ∙ set_metadata-status _ p

patch-status :
    (rt : Runtime) (updates : Json) (p p' : Proposal)
    → patch rt updates p ≡ ok p'
    → (q : Proposal) × (set_status (get_str updates "status") p ≡ ok q) × (p'.status ≡ q.status)
unfolding patch
patch-status rt updates p p' h = elim (Result-cases (set_status (get_str updates "status") p)) [
  | inl (q, good) ↦
      let same : patch_rest rt updates q ≡ p' = ground arith in
      (q, good, rw (← same) (patch_rest-status rt updates q))
  | inr (x, bad) ↦ ground arith
]

-- A PATCH leaves a proposal applied only if it was.
pub patch-applied :
    (rt : Runtime) (updates : Json) (p p' : Proposal)
    → patch rt updates p ≡ ok p'
    → p'.status ≡ applied
    → p.status ≡ applied
patch-applied rt updates p p' h e =
    let (q, done, same) = patch-status rt updates p p' h in
    set_status-applied (get_str updates "status") p q done (sym same ∙ e)
