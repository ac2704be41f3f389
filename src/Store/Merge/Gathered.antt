-- ===== src/Store/Merge/Gathered.antt =====
-- What the table of `merge_proposals` of server/src/store/in_memory.rs gives to each part of the
-- result.
use mathlib.Core.List.{append-nil, append_assoc, Memᴰ, Permᴰ}
use mathlib.Core.Path.{subst}
use mathlib.Core.List.Memᴰ
use context_first_docs.Prelude.{
  List, [], ◌∷◌, ◌++◌, ◌≡◌, refl, sym, ap, ◌∙◌, string_eq, if◌then◌else◌, Bool-cases, inl, inr, All,
  All-perm, Mem-All,
}
use context_first_docs.Types.Json.{str}
use context_first_docs.Types.Conflicts.{FieldChange, MergeConflictField, MergeResult}
use context_first_docs.Store.Merge.{
  Value, Place, Table, place_id, change_at, differs, classify, classify_all,
}

abbrev pub conflict_at : Place → Value → Value → MergeConflictField
conflict_at place v w = record {
  field = place.1;
  node_id = place_id place;
  proposal1_value = str v.1;
  proposal2_value = str w.1;
}

-- What one entry gives to each part of the result.
abbrev pub conflicts_of : Place → List Value → List MergeConflictField
conflicts_of place [] = []
conflicts_of place (v ∷ []) = []
conflicts_of place (v ∷ w ∷ vs) = if differs v.1 (w ∷ vs) then conflict_at place v w ∷ [] else []

abbrev pub merged_of : Place → List Value → List FieldChange
merged_of place [] = []
merged_of place (v ∷ []) = []
merged_of place (v ∷ w ∷ vs) = if differs v.1 (w ∷ vs) then [] else change_at place v.1 ∷ []

abbrev pub auto_merged_of : Place → List Value → List FieldChange
auto_merged_of place [] = []
auto_merged_of place (v ∷ []) = change_at place v.1 ∷ []
auto_merged_of place (v ∷ w ∷ vs) = []

abbrev pub gathered : {C : Type 0} → (Place → List Value → List C) → Table → List C
gathered f [] = []
gathered f ((place, vs) ∷ t) = f place vs ++ gathered f t

-- The parts of a result.
abbrev pub Parts :
    MergeResult → List MergeConflictField → List FieldChange → List FieldChange → Type 0
Parts r clashes shared single =
    (r.conflicts ≡ clashes) × (r.merged ≡ shared) × (r.auto_merged ≡ single)

classify-Parts :
    (place : Place) (vs : List Value) (r : MergeResult)
    → Parts
        (classify place vs r)
        (r.conflicts ++ conflicts_of place vs)
        (r.merged ++ merged_of place vs)
        (r.auto_merged ++ auto_merged_of place vs)
unfolding classify
classify-Parts place [] r = (sym (append-nil _), sym (append-nil _), sym (append-nil _))
classify-Parts place (v ∷ []) r = (sym (append-nil _), sym (append-nil _), refl)
classify-Parts place (v ∷ w ∷ vs) r = elim (Bool-cases (differs v.1 (w ∷ vs))) [
  | inl clash ↦ rw clash (refl, sym (append-nil _), sym (append-nil _))
  | inr agree ↦ rw agree (sym (append-nil _), refl, sym (append-nil _))
]

pub classify_all-Parts :
    (t : Table) (r : MergeResult)
    → Parts
        (classify_all t r)
        (r.conflicts ++ gathered conflicts_of t)
        (r.merged ++ gathered merged_of t)
        (r.auto_merged ++ gathered auto_merged_of t)
unfolding classify_all
classify_all-Parts [] r = (sym (append-nil _), sym (append-nil _), sym (append-nil _))
classify_all-Parts ((place, vs) ∷ t) r =
    let (c, m, a) = classify_all-Parts t (classify place vs r) in
    let (c', m', a') = classify-Parts place vs r in
    (
      c ∙ (ap (λ xs. xs ++ gathered conflicts_of t) c' ∙ append_assoc r.conflicts _ _),
      m ∙ (ap (λ xs. xs ++ gathered merged_of t) m' ∙ append_assoc r.merged _ _),
      a ∙ (ap (λ xs. xs ++ gathered auto_merged_of t) a' ∙ append_assoc r.auto_merged _ _),
    )

module _ {C : Type 0} (f : Place → List Value → List C) (c : C) where
  pub Mem-gathered :
      (t : Table)
      → Memᴰ c (gathered f t)
      → (place : Place) × (vs : List Value) × Memᴰ (place, vs) t × Memᴰ c (f place vs)
  Mem-gathered [] m = absurd (Memᴰ.not-nil m)
  Mem-gathered ((place, vs) ∷ t) m = elim (Memᴰ.append_cases (f place vs) m) [
    | inl here ↦ (place, vs, Memᴰ.head refl, here)
    | inr later ↦
        let (q, ws, among, gives) = Mem-gathered t later in (q, ws, Memᴰ.tail among, gives)
  ]

  pub gathered-Mem :
      (t : Table) (place : Place) (vs : List Value)
      → Memᴰ (place, vs) t
      → Memᴰ c (f place vs)
      → Memᴰ c (gathered f t)
  gathered-Mem [] place vs m gives = absurd (Memᴰ.not-nil m)
  gathered-Mem ((q, ws) ∷ t) place vs (Memᴰ.head e) gives =
      Memᴰ.append_left (gathered f t) (subst (λ x. Memᴰ c (f x.0 x.1)) e gives)
  gathered-Mem ((q, ws) ∷ t) place vs (Memᴰ.tail m) gives =
      Memᴰ.append_right (f q ws) (gathered-Mem t place vs m gives)

All-self :
    {A : Type 0} (xs : List A) {ys : List A}
    → ((x : A) → Memᴰ x xs → Memᴰ x ys)
    → All (λ x. Memᴰ x ys) xs
All-self [] h = tt
All-self (x ∷ xs) h = (h x (Memᴰ.head refl), All-self xs (λ y m. h y (Memᴰ.tail m)))

pub Mem-perm : {A : Type 0} {x : A} {xs ys : List A} → Permᴰ xs ys → Memᴰ x ys → Memᴰ x xs
Mem-perm {xs} p m = Mem-All _ m (All-perm _ p (All-self xs (λ y among. among)))
