-- ===== src/Store/Merge/Entries.antt =====
-- The entries of the table that `merge_proposals` of server/src/store/in_memory.rs builds.
use mathlib.Core.List.{Memᴰ}
use mathlib.Core.List.Memᴰ
use context_first_docs.Prelude.{
  String, Option, none, some, List, [], ◌∷◌, ◌++◌, ◌≡◌, ◌≢◌, ◌↔◌, refl, sym, ap, ◌∙◌, arith, eq_iff,
  true, false, string_eq, Bool-cases, inl, inr,
}
use context_first_docs.Types.Node.{NodeStatus, key}
use context_first_docs.Types.Proposal.{Proposal, Operation, create, update, delete, status_change}
use context_first_docs.Store.Merge.{
  Value, Place, same_place, Table, push, node_status_str, push_content, push_status,
  collect_operation, collect_operations, collect,
}
use context_first_docs.Store.Merge.Table.{
  values_in, asked, same_place_iff, values_in-push, values_in-collect,
}

-- What every push keeps holds of the table of any proposals.
module _ (P : Table → Type 0)
    (keep : (place : Place) (v : Value) (t : Table) → P t → P (push place v t)) where
  push_content_keeps :
      (pid k : String) (o : Option String) (t : Table) → P t → P (push_content pid k o t)
  unfolding push_content
  push_content_keeps pid k none t h = h
  push_content_keeps pid k (some c) t h = keep (k, "content") (pid, c) t h

  push_status_keeps :
      (pid k : String) (o : Option NodeStatus) (t : Table) → P t → P (push_status pid k o t)
  unfolding push_status
  push_status_keeps pid k none t h = h
  push_status_keeps pid k (some s) t h = keep (k, "status") (pid, node_status_str s) t h

  operation_keeps :
      (pid : String) (op : Operation) (t : Table) → P t → P (collect_operation pid op t)
  unfolding collect_operation
  operation_keeps pid (update id order node_id changes) t h =
      push_status_keeps pid (key node_id) changes.status
        (push_content pid (key node_id) changes.content t)
        (push_content_keeps pid (key node_id) changes.content t h)
  operation_keeps pid (create id order node) t h = h
  operation_keeps pid (delete id order node_id reason) t h = h
  operation_keeps pid (status_change id order node_id s r reason) t h = h

  operations_keep :
      (pid : String) (ops : List Operation) (t : Table) → P t → P (collect_operations pid ops t)
  unfolding collect_operations
  operations_keep pid [] t h = h
  operations_keep pid (op ∷ ops) t h =
      operations_keep pid ops (collect_operation pid op t) (operation_keeps pid op t h)

  pub collect_induction : (ps : List Proposal) (t : Table) → P t → P (collect ps t)
  unfolding collect
  collect_induction [] t h = h
  collect_induction (p ∷ ps) t h =
      collect_induction ps (collect_operations p.id p.operations t)
        (operations_keep p.id p.operations t h)

-- A place has one entry at most, which has values.
abbrev pub IsTidy : Table → Type 0
IsTidy [] = Unit
IsTidy ((place, vs) ∷ t) = (vs ≢ []) × (values_in place t ≡ []) × IsTidy t

snoc-ne-nil : (vs : List Value) (v : Value) → vs ++ v ∷ [] ≢ []
snoc-ne-nil [] v h = cc
snoc-ne-nil (w ∷ vs) v h = cc

IsTidy-push : (place : Place) (v : Value) (t : Table) → IsTidy t → IsTidy (push place v t)
unfolding push
IsTidy-push place v [] h = (λ e. cc, refl, tt)
IsTidy-push place v ((other, vs) ∷ t) (some_value, fresh, rest) =
    elim (Bool-cases (same_place other place)) [
      | inl own ↦ rw own (snoc-ne-nil vs v, fresh, rest)
      | inr off ↦
          let off' : same_place place other ≡ false = ground (
            arith,
            eq_iff other.0 place.0,
            eq_iff other.1 place.1,
            eq_iff place.0 other.0,
            eq_iff place.1 other.1,
          ) in
          rw off (
            some_value,
            values_in-push other place v t ∙ rw (off', fresh) refl,
            IsTidy-push place v t rest,
          )
    ]

same_place_refl : (q : Place) → same_place q q ≡ true
same_place_refl q = (same_place_iff q q).1 refl

Mem-values_in :
    (q : Place) (vs : List Value) (t : Table)
    → IsTidy t
    → Memᴰ (q, vs) t
    → (values_in q t ≡ vs) × (vs ≢ [])
Mem-values_in q vs [] tidy m = absurd (Memᴰ.not-nil m)
Mem-values_in q vs ((other, ws) ∷ t) (some_value, fresh, rest) (Memᴰ.head e) =
    let own : q ≡ other = ap (λ (x : Place × List Value). x.0) e in
    let all : vs ≡ ws = ap (λ (x : Place × List Value). x.1) e in
    rw ((same_place_iff other q).1 (sym own), all) (refl, some_value)
Mem-values_in q vs ((other, ws) ∷ t) (some_value, fresh, rest) (Memᴰ.tail m) =
    let (same, some_here) = Mem-values_in q vs t rest m in
    elim (Bool-cases (same_place other q)) [
      | inl own ↦ absurd (some_here (sym same ∙ rw (← (same_place_iff other q).0 own) fresh))
      | inr off ↦ (rw off same, some_here)
    ]

values_in-Mem :
    (q : Place) (t : Table) (v : Value) (vs : List Value)
    → values_in q t ≡ v ∷ vs
    → Memᴰ (q, v ∷ vs) t
values_in-Mem q [] v vs h = cc
values_in-Mem q ((other, ws) ∷ t) v vs h = elim (Bool-cases (same_place other q)) [
  | inl own ↦
      let here : ws ≡ v ∷ vs = rw own at h in
      let at_q = (same_place_iff other q).0 own in Memᴰ.head (rw (at_q, here) refl)
  | inr off ↦ Memᴰ.tail (values_in-Mem q t v vs (rw off at h))
]

entry-Mem :
    (q : Place) (t : Table) (vs : List Value) → values_in q t ≡ vs → vs ≢ [] → Memᴰ (q, vs) t
entry-Mem q t [] h some_value = absurd (some_value refl)
entry-Mem q t (v ∷ vs) h some_value = values_in-Mem q t v vs h

-- The entries of the table of some proposals are the places that they ask for, each with all that
-- they ask for there.
pub Mem-collect_iff :
    (ps : List Proposal) (q : Place) (vs : List Value)
    → Memᴰ (q, vs) (collect ps []) ↔ ((asked q ps ≡ vs) × (vs ≢ []))
Mem-collect_iff ps q vs =
    let same : values_in q (collect ps []) ≡ asked q ps = values_in-collect q ps [] in
    let tidy = collect_induction IsTidy IsTidy-push ps [] tt in
    (
      λ m.
          let (is, some_value) = Mem-values_in q vs (collect ps []) tidy m in
          (sym same ∙ is, some_value),
      λ h. entry-Mem q (collect ps []) vs (same ∙ h.0) h.1,
    )
