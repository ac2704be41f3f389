-- ===== src/Store/Apply/Sorting.antt =====
-- `sort_by_key` of a vector of operations by their `order`: a stable sort, as the standard library
-- promises, here by insertion.
use mathlib.Core.List.{Permᴰ}
use mathlib.Core.List.Permᴰ
use context_first_docs.Prelude.{
  ℕ, ◌≤◌, List, [], ◌∷◌, ◌≡◌, refl, leb, if◌then◌else◌, arith, All, Bool-cases, inl, inr, retain,
  ◌==◌, nat_eq,
}
use context_first_docs.Types.Proposal.{Operation, order_of}

insert_op : Operation → List Operation → List Operation
insert_op op [] = op ∷ []
insert_op op (x ∷ xs) = if leb (order_of op) (order_of x) then op ∷ x ∷ xs else x ∷ insert_op op xs

unfoldable pub sort_by_order : List Operation → List Operation
unfolding insert_op
sort_by_order [] = []
sort_by_order (op ∷ ops) = insert_op op (sort_by_order ops)

-- In ascending order of the keys.
abbrev IsOrdered : List Operation → Type 0
IsOrdered [] = Unit
IsOrdered (x ∷ xs) = All (λ y. order_of x ≤ order_of y) xs × IsOrdered xs

-- The operations of one order, in their sequence.
abbrev of_order : ℕ → List Operation → List Operation
of_order k = retain (λ op. order_of op == k)

All-le_trans :
    {a b : ℕ} (xs : List Operation)
    → a ≤ b
    → All (λ y. b ≤ order_of y) xs
    → All (λ y. a ≤ order_of y) xs
All-le_trans [] h k = tt
All-le_trans (x ∷ xs) h (k, ks) = (omega arith, All-le_trans xs h ks)

All-insert :
    (a : ℕ) (op : Operation) (xs : List Operation)
    → a ≤ order_of op
    → All (λ y. a ≤ order_of y) xs
    → All (λ y. a ≤ order_of y) (insert_op op xs)
unfolding insert_op
All-insert a op [] h k = (h, tt)
All-insert a op (x ∷ xs) h (k, ks) = ground (arith, All-insert a op xs h ks)

insert_op-IsOrdered :
    (op : Operation) (xs : List Operation) → IsOrdered xs → IsOrdered (insert_op op xs)
unfolding insert_op
insert_op-IsOrdered op [] h = (tt, tt)
insert_op-IsOrdered op (x ∷ xs) (h, hs) = elim (Bool-cases (leb (order_of op) (order_of x))) [
  | inl le ↦ rw le ((ground arith, All-le_trans xs (ground arith) h), (h, hs))
  | inr gt ↦ rw gt (All-insert (order_of x) op xs (ground arith) h, insert_op-IsOrdered op xs hs)
]

sort_by_order-IsOrdered : (ops : List Operation) → IsOrdered (sort_by_order ops)
unfolding sort_by_order
sort_by_order-IsOrdered [] = tt
sort_by_order-IsOrdered (op ∷ ops) =
    insert_op-IsOrdered op (sort_by_order ops) (sort_by_order-IsOrdered ops)

insert_op-perm : (op : Operation) (xs : List Operation) → Permᴰ (op ∷ xs) (insert_op op xs)
unfolding insert_op
insert_op-perm op [] = Permᴰ.refl (op ∷ [])
insert_op-perm op (x ∷ xs) = elim (Bool-cases (leb (order_of op) (order_of x))) [
  | inl le ↦ rw le (Permᴰ.refl (op ∷ x ∷ xs))
  | inr gt ↦ rw gt (Permᴰ.trans (Permᴰ.swap refl refl) (Permᴰ.cons refl (insert_op-perm op xs)))
]

pub sort_by_order-perm : (ops : List Operation) → Permᴰ ops (sort_by_order ops)
unfolding sort_by_order
sort_by_order-perm [] = Permᴰ.nil
sort_by_order-perm (op ∷ ops) =
    Permᴰ.trans (Permᴰ.cons refl (sort_by_order-perm ops)) (insert_op-perm op (sort_by_order ops))

of_order-insert :
    (k : ℕ) (op : Operation) (xs : List Operation)
    → of_order k (insert_op op xs) ≡ of_order k (op ∷ xs)
unfolding insert_op
of_order-insert k op [] = refl
of_order-insert k op (x ∷ xs) = ground (arith, of_order-insert k op xs)

of_order-sort_by_order :
    (k : ℕ) (ops : List Operation) → of_order k (sort_by_order ops) ≡ of_order k ops
unfolding sort_by_order
of_order-sort_by_order k [] = refl
of_order-sort_by_order k (op ∷ ops) =
    ground (arith, of_order-insert k op (sort_by_order ops), of_order-sort_by_order k ops)

-- Sorting the operations puts them in ascending order of their keys, keeps each of them, and
-- leaves those of one order in their sequence.
sort_by_order-sorts :
    (ops : List Operation)
    → IsOrdered (sort_by_order ops)
      × Permᴰ ops (sort_by_order ops)
      × ((k : ℕ) → of_order k (sort_by_order ops) ≡ of_order k ops)
sort_by_order-sorts ops =
    (sort_by_order-IsOrdered ops, sort_by_order-perm ops, λ k. of_order-sort_by_order k ops)
