-- ===== src/Config/Sorting.antt =====
-- `sort` of the standard library on numbers, as insertion.
use mathlib.Core.List.{Perm}
use mathlib.Core.List.Perm
use bob.Prelude.{Bool-cases, List, [], if◌then◌else◌, inl, inr, leb, ℕ, ◌∷◌}

unfoldable pub insert_sorted : ℕ → List ℕ → List ℕ
insert_sorted x [] = x ∷ []
insert_sorted x (y ∷ ys) = if leb x y then x ∷ y ∷ ys else y ∷ insert_sorted x ys

unfoldable pub sort : List ℕ → List ℕ
unfolding insert_sorted
sort [] = []
sort (x ∷ xs) = insert_sorted x (sort xs)

insert_sorted-perm : (x : ℕ) (xs : List ℕ) → Perm (x ∷ xs) (insert_sorted x xs)
unfolding insert_sorted
insert_sorted-perm x [] = Perm.refl (x ∷ [])
insert_sorted-perm x (y ∷ ys) = elim (Bool-cases (leb x y)) [
  | inl e ↦ rw e (Perm.refl (x ∷ y ∷ ys))
  | inr e ↦ rw e (Perm.trans (Perm.swap y x ys) (Perm.cons y (insert_sorted-perm x ys)))
]

-- Sorting only changes the order.
pub sort-perm : (xs : List ℕ) → Perm xs (sort xs)
unfolding sort
sort-perm [] = Perm.refl []
sort-perm (x ∷ xs) = Perm.trans (Perm.cons x (sort-perm xs)) (insert_sorted-perm x (sort xs))
