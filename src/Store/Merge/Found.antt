-- ===== src/Store/Merge/Found.antt =====
-- When `merge_proposals` of server/src/store/in_memory.rs answers.
use context_first_docs.Prelude.{
  ◌≤◌, String, Option, some, List, [], ◌∷◌, ◌≡◌, ◌↔◌, refl, arith, nat_eq, length, filter_map, All,
  Option-cases, inl, inr, ok,
}
use context_first_docs.Prelude.Map
use context_first_docs.Types.Proposal.{Proposal}
use context_first_docs.Types.Conflicts.{MergeResult}
use context_first_docs.Store.{InMemoryStore}
use context_first_docs.Store.Merge.{Table, collect, classify_all, nothing_merged, merge_proposals}

module _ {A B : Type 0} (f : A → Option B) where
  length-filter_map : (xs : List A) → length (filter_map f xs) ≤ length xs
  length-filter_map [] = omega arith
  length-filter_map (x ∷ xs) = ground (arith, length-filter_map xs)

  All-of_length :
      (xs : List A) → length (filter_map f xs) ≡ length xs → All (λ x. (y : B) × (f x ≡ some y)) xs
  All-of_length [] h = tt
  All-of_length (x ∷ xs) h = elim (Option-cases (f x)) [
    | inl gone ↦ ground (arith, length-filter_map xs)
    | inr (y, found) ↦ ((y, found), All-of_length xs (ground arith))
  ]

  length-of_All :
      (xs : List A) → All (λ x. (y : B) × (f x ≡ some y)) xs → length (filter_map f xs) ≡ length xs
  length-of_All [] h = refl
  length-of_All (x ∷ xs) ((y, found), hs) = ground (arith, length-of_All xs hs)

-- A merge succeeds exactly when the store has a proposal under each of the given ids.
pub merge_proposals-ok_iff :
    (arrange : Table → Table) (ids : List String) (s : InMemoryStore)
    → ((r : MergeResult) × (merge_proposals arrange ids s ≡ ok r))
      ↔ All (λ id. (p : Proposal) × (Map.get id s.proposals ≡ some p)) ids
unfolding merge_proposals
merge_proposals-ok_iff arrange ids s =
    let look = λ (id : String). Map.get id s.proposals in
    (
      λ h. All-of_length look ids (let e = h.1 in ground arith),
      λ h.
          let e = length-of_All look ids h in
          (classify_all (arrange (collect (filter_map look ids) [])) nothing_merged, ground arith),
    )
