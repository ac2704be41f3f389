-- ===== src/Store/Merge/Table.antt =====
-- The table that `merge_proposals` of server/src/store/in_memory.rs builds, against what each
-- proposal asks for.
use mathlib.Core.List.{append-nil, append_assoc}
use context_first_docs.Prelude.{
  String, Option, none, some, List, [], ◌∷◌, ◌++◌, ◌≡◌, ◌↔◌, refl, sym, ap, ◌∙◌, arith, eq_iff,
  Bool, true, false, string_eq, if◌then◌else◌, Bool-cases, inl, inr,
}
use context_first_docs.Types.Node.{NodeStatus, key}
use context_first_docs.Types.Proposal.{Proposal, Operation, create, update, delete, status_change}
use context_first_docs.Store.Merge.{
  Value, Place, same_place, Table, push, node_status_str, push_content, push_status,
  collect_operation, collect_operations, collect,
}

-- The values that a table has for a place.
abbrev pub values_in : Place → Table → List Value
values_in q [] = []
values_in q ((place, vs) ∷ t) = if same_place place q then vs else values_in q t

-- The values that an operation asks for, of one field.
abbrev only_if : Bool → Option String → String → List Value
only_if here none pid = []
only_if here (some v) pid = if here then (pid, v) ∷ [] else []

abbrev status_text : Option NodeStatus → Option String
status_text none = none
status_text (some s) = some (node_status_str s)

-- The values that an operation of the proposal asks for at a place.
abbrev pub asked_by : Place → String → Operation → List Value
asked_by q pid (update id order node_id changes) =
    only_if (same_place (key node_id, "content") q) changes.content pid
    ++ only_if (same_place (key node_id, "status") q) (status_text changes.status) pid
asked_by q pid _ = []

abbrev pub asked_by_all : Place → String → List Operation → List Value
asked_by_all q pid [] = []
asked_by_all q pid (op ∷ ops) = asked_by q pid op ++ asked_by_all q pid ops

abbrev pub asked : Place → List Proposal → List Value
asked q [] = []
asked q (p ∷ ps) = asked_by_all q p.id p.operations ++ asked q ps

pub same_place_iff : (a b : Place) → (same_place a b ≡ true) ↔ (a ≡ b)
same_place_iff a b = ground (arith, eq_iff a.0 b.0, eq_iff a.1 b.1)

apart : (a b q : Place) → same_place a b ≡ false → same_place a q ≡ true → same_place b q ≡ false
apart a b q differs here = elim (Bool-cases (same_place b q)) [
  | inl own ↦
      let both : a ≡ b = (same_place_iff a q).0 here ∙ sym ((same_place_iff b q).0 own) in
      cc (differs, (same_place_iff a b).1 both)
  | inr off ↦ off
]

pub values_in-push :
    (q place : Place) (v : Value) (t : Table)
    → values_in q (push place v t) ≡ values_in q t ++ (if same_place place q then v ∷ [] else [])
unfolding push
values_in-push q place v [] = ground arith
values_in-push q place v ((other, vs) ∷ t) = elim (Bool-cases (same_place other place)) [
  | inl own ↦
      let same : same_place other q ≡ same_place place q =
        ap (λ p. same_place p q) ((same_place_iff other place).0 own) in
      rw own (elim (Bool-cases (same_place place q)) [
        | inl here ↦ rw (same, here) refl
        | inr off ↦ rw (same, off) (sym (append-nil (values_in q t)))
      ])
  | inr differs ↦ rw differs (elim (Bool-cases (same_place other q)) [
    | inl here ↦ let off = apart other place q differs here in rw (here, off) (sym (append-nil vs))
    | inr off ↦ rw off (values_in-push q place v t)
  ])
]

values_in-push_content :
    (q : Place) (pid k : String) (o : Option String) (t : Table)
    → values_in q (push_content pid k o t)
      ≡ values_in q t ++ only_if (same_place (k, "content") q) o pid
unfolding push_content
values_in-push_content q pid k none t = sym (append-nil (values_in q t))
values_in-push_content q pid k (some c) t = values_in-push q (k, "content") (pid, c) t

values_in-push_status :
    (q : Place) (pid k : String) (o : Option NodeStatus) (t : Table)
    → values_in q (push_status pid k o t)
      ≡ values_in q t ++ only_if (same_place (k, "status") q) (status_text o) pid
unfolding push_status
values_in-push_status q pid k none t = sym (append-nil (values_in q t))
values_in-push_status q pid k (some s) t = values_in-push q (k, "status") (pid, node_status_str s) t

values_in-collect_operation :
    (q : Place) (pid : String) (op : Operation) (t : Table)
    → values_in q (collect_operation pid op t) ≡ values_in q t ++ asked_by q pid op
unfolding collect_operation
values_in-collect_operation q pid (update id order node_id changes) t =
    values_in-push_status q pid (key node_id) changes.status
      (push_content pid (key node_id) changes.content t)
    ∙ (ap
          (λ vs.
            vs ++ only_if (same_place (key node_id, "status") q) (status_text changes.status) pid)
          (values_in-push_content q pid (key node_id) changes.content t)
        ∙ append_assoc (values_in q t) _ _)
values_in-collect_operation q pid (create id order node) t = sym (append-nil (values_in q t))
values_in-collect_operation q pid (delete id order node_id reason) t =
    sym (append-nil (values_in q t))
values_in-collect_operation q pid (status_change id order node_id s r reason) t =
    sym (append-nil (values_in q t))

values_in-collect_operations :
    (q : Place) (pid : String) (ops : List Operation) (t : Table)
    → values_in q (collect_operations pid ops t) ≡ values_in q t ++ asked_by_all q pid ops
unfolding collect_operations
values_in-collect_operations q pid [] t = sym (append-nil (values_in q t))
values_in-collect_operations q pid (op ∷ ops) t =
    values_in-collect_operations q pid ops (collect_operation pid op t)
    ∙ (ap (λ vs. vs ++ asked_by_all q pid ops) (values_in-collect_operation q pid op t)
        ∙ append_assoc (values_in q t) _ _)

-- The table that merging builds has, at each place, the values that it had there followed by those
-- that the updates of the proposals ask for there, in the order of the proposals and their
-- operations.
pub values_in-collect :
    (q : Place) (ps : List Proposal) (t : Table)
    → values_in q (collect ps t) ≡ values_in q t ++ asked q ps
unfolding collect
values_in-collect q [] t = sym (append-nil (values_in q t))
values_in-collect q (p ∷ ps) t =
    values_in-collect q ps (collect_operations p.id p.operations t)
    ∙ (ap (λ vs. vs ++ asked q ps) (values_in-collect_operations q p.id p.operations t)
        ∙ append_assoc (values_in q t) _ _)
