-- ===== src/Disk/Names.antt =====
-- File names with an extension, and what cutting a text at its last separator gives.
use Prim.Native.Char.{Char, code}
use Prim.Native.String.{◌++◌}
use text.Mathlib.TextLemmas.{nil-append, cons-append}
use text.Mathlib.TextEquality.{Char-path}
use context_first_docs.Prelude.{
  ℕ, String, Option, none, some, ◌≡◌, ◌≢◌, refl, sym, ap, ◌∙◌, arith, true, ◌==◌, nat_eq, string_eq,
  eq_iff, Bool-cases, Option-cases, inl, inr, unwrap_or,
}
use context_first_docs.Disk.{cut_last, join, file_stem, extension, with_extension}

cut_last-later :
    (c : ℕ) (x : Char) (s : String) {before after : String}
    → cut_last c s ≡ some (before, after)
    → cut_last c (String.◌∷◌ x s) ≡ some (String.◌∷◌ x before, after)
unfolding cut_last
cut_last-later c x s h = ground arith

cut_last-here :
    (c : ℕ) (x : Char) (s : String)
    → cut_last c s ≡ none
    → (code x == c) ≡ true
    → cut_last c (String.◌∷◌ x s) ≡ some ("", s)
unfolding cut_last
cut_last-here c x s h e = ground arith

-- An extension without dots is what stands after the last dot.
cut_last-dot :
    (s e : String) → cut_last b'.' e ≡ none → cut_last b'.' (s ++ ("." ++ e)) ≡ some (s, e)
cut_last-dot String.[] e h =
    rw (nil-append, cons-append, nil-append) (cut_last-here b'.' "." e h refl)
cut_last-dot (String.◌∷◌ x s) e h =
    rw cons-append (cut_last-later b'.' x (s ++ ("." ++ e)) (cut_last-dot s e h))

-- What stands before the last separator, it, and what stands after it are the text.
cut_last-append :
    (c : ℕ) (s : String) (before after : String)
    → cut_last c s ≡ some (before, after)
    → (x : Char) × (code x ≡ c) × (s ≡ before ++ String.◌∷◌ x after)
unfolding cut_last
cut_last-append c String.[] before after h = cc
cut_last-append c (String.◌∷◌ x s) before after h = elim (Option-cases (cut_last c s)) [
  | inl last ↦ elim (Bool-cases (code x == c)) [
    | inl is ↦
        let e : before ≡ "" = ground arith in
        let f : after ≡ s = ground arith in
        (x, (nat_eq.same_iff (code x) c).0 is, rw (e, f) (sym (nil-append (String.◌∷◌ x s))))
    | inr other ↦ absurd (ground arith)
  ]
  | inr ((front, back), e) ↦
      let (y, is, same) = cut_last-append c s front back e in
      let f : before ≡ String.◌∷◌ x front = ground arith in
      let g : after ≡ back = ground arith in
      (y, is, rw (f, g, cons-append) (ap (String.◌∷◌ x) same))
]

-- `format!("{stem}.json")` has its stem and its extension, unless the stem is empty.
module _ (stem e : String) (some_stem : stem ≢ "") (no_dot : cut_last b'.' e ≡ none) where
  pub file_stem-dot : file_stem (stem ++ ("." ++ e)) ≡ stem
  unfolding file_stem
  file_stem-dot = ground (arith, cut_last-dot stem e no_dot, eq_iff stem "")

  pub extension-dot : extension (stem ++ ("." ++ e)) ≡ some e
  unfolding extension
  extension-dot = ground (arith, cut_last-dot stem e no_dot, eq_iff stem "")

dot-append :
    (x : Char) (after e : String) → code x ≡ b'.' → after ≡ e → String.◌∷◌ x after ≡ "." ++ e
dot-append x after e is last = rw (cons-append, nil-append) (rw (last, Char-path x "." is) refl)

-- A file with an extension is named by its stem and the extension.
pub extension-stem :
    (name e : String)
    → extension name ≡ some e
    → (file_stem name ≢ "") × (name ≡ file_stem name ++ ("." ++ e))
unfolding extension file_stem
extension-stem name e h = elim (Option-cases (cut_last b'.' name)) [
  | inl none_there ↦ absurd (ground arith)
  | inr ((before, after), cut) ↦ elim (Bool-cases (before == "")) [
    | inl empty ↦ absurd (ground arith)
    | inr full ↦
        let (x, is, same) = cut_last-append b'.' name before after cut in
        let last : after ≡ e = ground arith in
        let stem : file_stem name ≡ before = ground arith in
        (
          rw stem (λ q. cc ((eq_iff before "").1 q)),
          rw stem (same ∙ ap (λ u. before ++ u) (dot-append x after e is last)),
        )
  ]
]

-- Separators come from the parts.
pub cut_last-none-append :
    (c : ℕ) (s t : String) → cut_last c s ≡ none → cut_last c t ≡ none → cut_last c (s ++ t) ≡ none
unfolding cut_last
cut_last-none-append c String.[] t h k = rw nil-append k
cut_last-none-append c (String.◌∷◌ x s) t h k = elim (Option-cases (cut_last c s)) [
  | inl none_there ↦ rw cons-append (ground (arith, cut_last-none-append c s t none_there k))
  | inr (parts, there) ↦ absurd (ground arith)
]

-- A name for a file: it has no slash, and is not empty.
abbrev pub Plain : String → Type 0
Plain name = (name ≢ "") × (cut_last b'/' name ≡ none)

module _ (dir stem : String) (plain : Plain stem) where
  pub join-json : join dir (stem ++ ".json") ≡ record { dir = dir; name = stem ++ ".json" }
  unfolding join
  join-json = ground (arith, cut_last-none-append b'/' stem ".json" plain.1 refl)

  -- The temporary file of a JSON file.
  pub with_extension-json :
      with_extension "tmp" (record { dir = dir; name = stem ++ ".json" })
      ≡ record { dir = dir; name = stem ++ ".tmp" }
  unfolding with_extension
  with_extension-json =
      ap (λ n. record { dir = dir; name = n ++ ".tmp" }) (file_stem-dot stem "json" plain.0 refl)

pub tmp-ne-json : (s t : String) → s ≢ "" → t ≢ "" → s ++ ".tmp" ≢ t ++ ".json"
unfolding cut_last
tmp-ne-json s t ns nt e =
    let same : some "tmp" ≡ some "json" =
      sym (extension-dot s "tmp" ns refl) ∙ ap extension e ∙ extension-dot t "json" nt refl in
    let texts : ◌≡◌ {A = String} "tmp" "json" = ap (λ (o : Option String). unwrap_or o "") same in
    cc ((eq_iff "tmp" "json").1 texts)

pub extension-json : (stem : String) → stem ≢ "" → extension (stem ++ ".json") ≡ some "json"
unfolding cut_last
extension-json stem some_stem = extension-dot stem "json" some_stem refl

pub file_stem-json : (stem : String) → stem ≢ "" → file_stem (stem ++ ".json") ≡ stem
unfolding cut_last
file_stem-json stem some_stem = file_stem-dot stem "json" some_stem refl
