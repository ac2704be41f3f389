-- ===== src/Store/Conflicts/Keys.antt =====
-- `key` of server/src/types/node.rs and `key_to_node_id` of server/src/store/in_memory.rs as inverses.
use Prim.Native.Char.{Char, code}
use Prim.Native.String.{◌++◌}
use text.Mathlib.TextLemmas.{nil-append, cons-append}
use text.Mathlib.TextEquality.{Char-path}
use context_first_docs.Prelude.{
  ℕ, String, Option, none, some, ◌≡◌, refl, sym, ap, ◌∙◌, arith, true, false, ◌==◌, nat_eq,
  Bool-cases, Option-cases, inl, inr,
}
use context_first_docs.Types.Node.{NodeId, key}
use context_first_docs.Store.Conflicts.{split_colon, key_to_node_id}

is_colon : (c : Char) → (code c == b':') ≡ true → ◌≡◌ {A = ℕ} b':' (code c)
is_colon c h = ground arith

at_colon :
    (c : Char) (s : String) → (code c == b':') ≡ true → split_colon (String.◌∷◌ c s) ≡ some ("", s)
unfolding split_colon
at_colon c s colon = rw colon

past_some :
    (c : Char) (s : String) {before behind : String}
    → (code c == b':') ≡ false
    → split_colon s ≡ some (before, behind)
    → split_colon (String.◌∷◌ c s) ≡ some (String.◌∷◌ c before, behind)
unfolding split_colon
past_some c s other e = rw other (rw e refl)

past_none :
    (c : Char) (s : String)
    → (code c == b':') ≡ false
    → split_colon s ≡ none
    → split_colon (String.◌∷◌ c s) ≡ none
unfolding split_colon
past_none c s other e = rw other (rw e refl)

joined : (s : String) → ":" ++ s ≡ String.◌∷◌ ":" s
joined s = cons-append ":" "" s ∙ ap (λ u. String.◌∷◌ ":" u) (nil-append s)

split_colon-append :
    (space id : String)
    → split_colon space ≡ none
    → split_colon (space ++ (":" ++ id)) ≡ some (space, id)
split_colon-append String.[] id h =
    ap split_colon (nil-append (":" ++ id) ∙ joined id) ∙ at_colon ":" id refl
split_colon-append (String.◌∷◌ c s) id h = elim (Bool-cases (code c == b':')) [
  | inl colon ↦ cc (h, at_colon c s colon)
  | inr other ↦ elim (Option-cases (split_colon s)) [
    | inl plain ↦
        ap split_colon (cons-append c s (":" ++ id))
        ∙ past_some c (s ++ (":" ++ id)) other (split_colon-append s id plain)
    | inr (parts, e) ↦ cc (h, past_some c s other e)
  ]
]

split_colon-join :
    (k space id : String) → split_colon k ≡ some (space, id) → space ++ (":" ++ id) ≡ k
split_colon-join String.[] space id h = unfold split_colon in cc
split_colon-join (String.◌∷◌ c s) space id h = elim (Bool-cases (code c == b':')) [
  | inl colon ↦
      let e : ◌≡◌ {A = Option (String × String)} (some ("", s)) (some (space, id)) =
        sym (at_colon c s colon) ∙ h in
      let first : ◌≡◌ {A = String} "" space = cc in
      let second : s ≡ id = cc in
      rw (← first, ← second)
        (nil-append (":" ++ s)
          ∙ (joined s ∙ ap (λ d. String.◌∷◌ d s) (Char-path ":" c (is_colon c colon))))
  | inr other ↦ elim (Option-cases (split_colon s)) [
    | inl plain ↦ cc (h, past_none c s other plain)
    | inr (parts, e) ↦
        let same : ◌≡◌ {A = Option (String × String)} (some (String.◌∷◌ c parts.0, parts.1))
            (some (space, id)) =
          sym (past_some c s other e) ∙ h in
        let first : String.◌∷◌ c parts.0 ≡ space = cc in
        let second : parts.1 ≡ id = cc in
        rw (← first, ← second)
          (cons-append c parts.0 (":" ++ parts.1)
            ∙ ap (λ u. String.◌∷◌ c u) (split_colon-join s parts.0 parts.1 e))
  ]
]

-- A namespace has no colon, and an id without a namespace has none.
abbrev pub IsPlain : NodeId → Type 0
IsPlain n = elim n.namespace [
  | none ↦ split_colon n.id ≡ none
  | some space ↦ split_colon space ≡ none
]

from_parts :
    (id : String) (o : Option String)
    → IsPlain (record { id = id; namespace = o })
    → key_to_node_id (key (record { id = id; namespace = o }))
      ≡ some (record { id = id; namespace = o })
unfolding key_to_node_id key
from_parts id none h = rw (h, key_to_node_id) refl
from_parts id (some space) h = rw (split_colon-append space id h, key_to_node_id) refl

-- A node id is read back from its key if its namespace has no colon or, without a namespace, if
-- its id has none.
pub key_to_node_id-key : (n : NodeId) → IsPlain n → key_to_node_id (key n) ≡ some n
key_to_node_id-key n h = from_parts n.id n.namespace h

id_of_whole :
    (k : String)
    → split_colon k ≡ none
    → key_to_node_id k ≡ some (record { id = k; namespace = none })
unfolding key_to_node_id
id_of_whole k e = rw (e, key_to_node_id) refl

id_of_parts :
    (k : String) {space id : String}
    → split_colon k ≡ some (space, id)
    → key_to_node_id k ≡ some (record { id = id; namespace = some space })
unfolding key_to_node_id
id_of_parts k e = rw (e, key_to_node_id) refl

some_inj : {n m : NodeId} → ◌≡◌ {A = Option NodeId} (some n) (some m) → n ≡ m
some_inj e = cc

-- The node id that is read from a text has that text as its key.
pub key-key_to_node_id : (k : String) (n : NodeId) → key_to_node_id k ≡ some n → key n ≡ k
unfolding key
key-key_to_node_id k n h = elim (Option-cases (split_colon k)) [
  | inl plain ↦ ap key (some_inj (sym h ∙ id_of_whole k plain))
  | inr (parts, e) ↦
      ap key (some_inj (sym h ∙ id_of_parts k e)) ∙ split_colon-join k parts.0 parts.1 e
]
