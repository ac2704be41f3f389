-- ===== src/Prelude/Permutation.antt =====
-- What a permutation of a list keeps.
use mathlib.Core.List.{Permᴰ}
use mathlib.Core.Path.{◌≡◌}
use mathlib.Core.List.{List}
use native.Mathlib.Omega.{arith}
use context_first_docs.Prelude.Lists.{All, length}

pub All-perm {ℓ κ} :
    {A : Type ℓ} (P : A → Type κ) {xs ys : List A} → Permᴰ xs ys → All P xs → All P ys
All-perm P (Permᴰ.nil) h = tt
All-perm P (Permᴰ.cons e p) (h, hs) = (rw e at h, All-perm P p hs)
All-perm P (Permᴰ.swap e e') (h, (k, hs)) = (rw e' at k, (rw e at h, hs))
All-perm P (Permᴰ.trans p q) h = All-perm P q (All-perm P p h)

pub length-perm {ℓ} : {A : Type ℓ} {xs ys : List A} → Permᴰ xs ys → length xs ≡ length ys
length-perm (Permᴰ.nil) = omega arith
length-perm (Permᴰ.cons e p) = omega (arith, length-perm p)
length-perm (Permᴰ.swap e e') = omega arith
length-perm (Permᴰ.trans p q) = omega (arith, length-perm p, length-perm q)
