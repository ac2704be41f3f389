-- ===== src/Prelude/Iff.antt =====
-- Lemmas on empty lists of complaints.
use mathlib.Core.Path.{◌≡◌, refl}
use mathlib.Core.Logic.{◌↔◌}
use mathlib.Core.List.{List, [], ◌∷◌, ◌++◌}

-- Two lists of complaints are empty together.
pub append-eq-nil_iff {ℓ} :
    {A : Type ℓ} (xs ys : List A) → (xs ++ ys ≡ []) ↔ ((xs ≡ []) × (ys ≡ []))
append-eq-nil_iff [] ys = (λ e. (refl, e), λ e. e.1)
append-eq-nil_iff (x ∷ xs) ys = (λ e. cc, λ e. cc (e.0))
