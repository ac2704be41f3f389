-- ===== src/Prelude/Membership.antt =====
-- Boolean searches of a list against membership.
use mathlib.Core.List.{Memᴰ}
use mathlib.Core.List.Memᴰ
use mathlib.Core.Path.{◌≡◌, refl, sym, ap}
use mathlib.Core.Logic.{◌↔◌, inl, inr}
use mathlib.Core.Bool.{Bool, true, ◌||◌}
use mathlib.Core.List.{List, [], ◌∷◌, ◌++◌}
use native.Mathlib.Omega.{arith}
use context_first_docs.Prelude.Tests.{Bool-cases}
use context_first_docs.Prelude.Lists.{any, All}
use context_first_docs.Prelude.Equality.{PartialEq, ◌==◌, contains}

module _ {A : Type 0} (f : A → Bool) where
  any-Mem : {x : A} {xs : List A} → Memᴰ x xs → f x ≡ true → any f xs ≡ true
  any-Mem (Memᴰ.head {x = y} e) h = ground (arith, ap f e)
  any-Mem (Memᴰ.tail {x = y} m) h = ground (arith, any-Mem m h)

  -- A search finds exactly what is there.
  pub any_iff : (xs : List A) → (any f xs ≡ true) ↔ ((x : A) × Memᴰ x xs × (f x ≡ true))
  any_iff [] = (λ e. cc, λ h. absurd (Memᴰ.not-nil h.1))
  any_iff (y ∷ ys) = (
    λ e. elim (Bool-cases (f y)) [
      | inl here ↦ (y, Memᴰ.head refl, here)
      | inr other ↦
          let (x, among, good) = (any_iff ys).0 (ground arith) in (x, Memᴰ.tail among, good)
    ],
    λ h. any-Mem h.1 h.2,
  )

module _ {A : Type 0} ⦃e : PartialEq A⦄ where
  pub contains-append :
      (xs ys : List A) (a : A) → contains (xs ++ ys) a ≡ (contains xs a || contains ys a)
  contains-append [] ys a = refl
  contains-append (x ∷ xs) ys a = ground (arith, contains-append xs ys a)

  contains-Mem : {a : A} {xs : List A} → Memᴰ a xs → contains xs a ≡ true
  contains-Mem {a} (Memᴰ.head {x = y} h) = ground (arith, e.same_iff y a, h)
  contains-Mem (Memᴰ.tail {x = y} m) = ground (arith, contains-Mem m)

  pub contains_iff : (xs : List A) (a : A) → (contains xs a ≡ true) ↔ Memᴰ a xs
  contains_iff [] a = (λ h. cc, λ h. absurd (Memᴰ.not-nil h))
  contains_iff (x ∷ xs) a = (
    λ h. elim (Bool-cases (x == a)) [
      | inl here ↦ Memᴰ.head (sym ((e.same_iff x a).0 here))
      | inr other ↦ Memᴰ.tail ((contains_iff xs a).0 (ground arith))
    ],
    contains-Mem,
  )

-- What holds of all members holds of each.
pub Mem-All : {A : Type 0} (P : A → Type 0) {x : A} {xs : List A} → Memᴰ x xs → All P xs → P x
Mem-All P (Memᴰ.head e) h = rw e h.0
Mem-All P (Memᴰ.tail m) h = Mem-All P m h.1
