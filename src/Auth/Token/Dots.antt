-- ===== src/Auth/Token/Dots.antt =====
-- The parts of a token at its dots, `token.split('.')` of server/src/auth.rs, joined again.
use Prim.Native.Char.{Char, code}
use Prim.Native.String.{◌++◌}
use text.Mathlib.TextLemmas.{append-nil, append_assoc, nil-append, cons-append}
use text.Mathlib.TextEquality.{Char-path}
use context_first_docs.Prelude.{
  ℕ, String, List, [], ◌∷◌, ◌≡◌, refl, sym, ap, ◌∙◌, arith, true, ◌==◌, nat_eq, Bool-cases, inl,
  inr,
}
use context_first_docs.Auth.Token.{split_from}

abbrev pub join_dots : List String → String
join_dots [] = ""
join_dots (s ∷ []) = s
join_dots (s ∷ t ∷ ts) = s ++ ("." ++ join_dots (t ∷ ts))

split_from-cons : (cur s : String) → (h : String) × (t : List String) × (split_from cur s ≡ h ∷ t)
unfolding split_from
split_from-cons cur String.[] = (cur, [], refl)
split_from-cons cur (String.◌∷◌ c s) = elim (Bool-cases (code c == b'.')) [
  | inl dot ↦ (cur, split_from "" s, rw dot)
  | inr other ↦ rw other (split_from-cons (cur ++ String.◌∷◌ c String.[]) s)
]

join_dots-cons :
    (s : String) {ts : List String}
    → (h : String) → (t : List String) → ts ≡ h ∷ t
    → join_dots (s ∷ ts) ≡ s ++ ("." ++ join_dots ts)
join_dots-cons s h t e = rw e refl

is_dot : (c : Char) → (code c == b'.') ≡ true → ◌≡◌ {A = ℕ} b'.' (code c)
is_dot c h = ground arith

-- Joined by dots again, the parts of a token are the token.
pub join_dots-split_from : (cur s : String) → join_dots (split_from cur s) ≡ cur ++ s
unfolding split_from
join_dots-split_from cur String.[] = sym (append-nil cur)
join_dots-split_from cur (String.◌∷◌ c s) = elim (Bool-cases (code c == b'.')) [
  | inl dot ↦
      let (h, t, e) = split_from-cons "" s in
      rw dot (
        join_dots-cons cur h t e
        ∙ ap (λ u. cur ++ u)
            (ap (λ u. "." ++ u) (join_dots-split_from "" s ∙ nil-append s)
              ∙ (cons-append "." "" s
                  ∙ (ap (λ u. String.◌∷◌ "." u) (nil-append s)
                      ∙ ap (λ d. String.◌∷◌ d s) (Char-path "." c (is_dot c dot))))))
  | inr other ↦ rw other (
      join_dots-split_from (cur ++ String.◌∷◌ c String.[]) s
      ∙ (append_assoc cur (String.◌∷◌ c String.[]) s
          ∙ ap (λ u. cur ++ u) (cons-append c "" s ∙ ap (λ u. String.◌∷◌ c u) (nil-append s))))
]
