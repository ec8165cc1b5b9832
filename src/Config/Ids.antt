-- ===== src/Config/Ids.antt =====
-- The check of the vdisk ids (bob-common/src/configs/cluster.rs).
use mathlib.Core.List.{Perm}
use bob.Prelude.{
  Bool-cases, List, Member, [], arith, dec_le, inl, inr, leb, length, refl, subst, suc, sym, zero,
  ℕ, ◌+◌, ◌<◌, ◌∷◌, ◌≡◌, ◌≤◌,
}
use bob.Config.Checks.{valid, Unique}
use bob.Config.Sorting.{insert_sorted, sort, sort-perm}
use bob.Config.{check_ids}
use bob.Map.{nat_eq}

-- `n` numbers from `i` on.
abbrev pub upto : ℕ → ℕ → List ℕ
upto i zero = []
upto i (suc n) = i ∷ upto (i + 1) n

check_ids-upto : (i : ℕ) (xs : List ℕ) → check_ids i xs ≡ valid → xs ≡ upto i (length xs)
unfolding check_ids
check_ids-upto i [] h = refl
check_ids-upto i (x ∷ xs) h = ground (arith, check_ids-upto (i + 1) xs)

upto-check_ids : (i n : ℕ) → check_ids i (upto i n) ≡ valid
unfolding check_ids
upto-check_ids i zero = refl
upto-check_ids i (suc n) = ground (arith, upto-check_ids (i + 1) n)

length-insert_sorted : (x : ℕ) (xs : List ℕ) → length (insert_sorted x xs) ≡ suc (length xs)
unfolding insert_sorted
length-insert_sorted x [] = refl
length-insert_sorted x (y ∷ ys) = ground (arith, length-insert_sorted x ys)

length-sort : (xs : List ℕ) → length (sort xs) ≡ length xs
unfolding sort
length-sort [] = refl
length-sort (x ∷ xs) = omega (arith, length-insert_sorted x (sort xs), length-sort xs)

-- The check of the ids passes only if they are, in some order, the numbers below their count.
pub check_ids-perm :
    (ids : List ℕ) → check_ids 0 (sort ids) ≡ valid → Perm ids (upto 0 (length ids))
check_ids-perm ids h =
    subst (λ n. Perm ids (upto 0 n)) (length-sort ids)
      (subst (Perm ids) (check_ids-upto 0 (sort ids) h) (sort-perm ids))

Member-insert_sorted : (a x : ℕ) (xs : List ℕ) → Member a (insert_sorted x xs) → Member a (x ∷ xs)
unfolding insert_sorted
Member-insert_sorted a x [] h = h
Member-insert_sorted a x (y ∷ ys) h = ground (arith, Member-insert_sorted a x ys)

Member-sort : (a : ℕ) (xs : List ℕ) → Member a (sort xs) → Member a xs
unfolding sort
Member-sort a [] h = h
Member-sort a (x ∷ xs) h = elim (Member-insert_sorted a x (sort xs) h) [
  | inl e ↦ inl e
  | inr m ↦ inr (Member-sort a xs m)
]

insert-Member : (a x : ℕ) (xs : List ℕ) → Member a (x ∷ xs) → Member a (insert_sorted x xs)
unfolding insert_sorted
insert-Member a x [] h = h
insert-Member a x (y ∷ ys) h = ground (arith, insert-Member a x ys)

sort-Member : (a : ℕ) (xs : List ℕ) → Member a xs → Member a (sort xs)
unfolding sort
sort-Member a [] h = h
sort-Member a (x ∷ xs) (inl e) = insert-Member a x (sort xs) (inl e)
sort-Member a (x ∷ xs) (inr m) = insert-Member a x (sort xs) (inr (sort-Member a xs m))

insert-Unique : (x : ℕ) (xs : List ℕ) → Unique (insert_sorted x xs) → (¬ Member x xs) × Unique xs
unfolding insert_sorted
insert-Unique x [] h = (λ m. m, tt)
insert-Unique x (y ∷ ys) h = elim (Bool-cases (leb x y)) [
  | inl e ↦ let u : Unique (x ∷ y ∷ ys) = subst Unique {y = x ∷ y ∷ ys} (rw e) h in (u.0, u.1)
  | inr e ↦
      let u : Unique (y ∷ insert_sorted x ys) =
        subst Unique {y = y ∷ insert_sorted x ys} (rw e) h in
      let ih = insert-Unique x ys u.1 in
      (front u.0 ih.0, (λ m. u.0 (insert-Member y x ys (inr m)), ih.1))
]
  where
    front : ¬ Member y (insert_sorted x ys) → ¬ Member x ys → ¬ Member x (y ∷ ys)
    front out new (inl e) = out (insert-Member y x ys (inl (sym e)))
    front out new (inr m) = new m

sort-Unique : (xs : List ℕ) → Unique (sort xs) → Unique xs
unfolding sort
sort-Unique [] h = tt
sort-Unique (x ∷ xs) h =
    let u = insert-Unique x (sort xs) h in (λ m. u.0 (sort-Member x xs m), sort-Unique xs u.1)

upto-ge : (i n a : ℕ) → Member a (upto i n) → i ≤ a
upto-ge i zero a h = absurd h
upto-ge i (suc n) a (inl e) = omega arith
upto-ge i (suc n) a (inr m) = omega (arith, upto-ge (i + 1) n a m)

upto-lt : (i n a : ℕ) → Member a (upto i n) → a < i + n
upto-lt i zero a h = absurd h
upto-lt i (suc n) a (inl e) = omega arith
upto-lt i (suc n) a (inr m) = omega (arith, upto-lt (i + 1) n a m)

upto-Unique : (i n : ℕ) → Unique (upto i n)
upto-Unique i zero = tt
upto-Unique i (suc n) = (λ m. absurd (omega (arith, upto-ge (i + 1) n i m)), upto-Unique (i + 1) n)

Member-upto : (i n a : ℕ) → i ≤ a → a < i + n → Member a (upto i n)
Member-upto i zero a p q = absurd (omega arith)
Member-upto i (suc n) a p q = elim (dec_le (i + 1) a) [
  | yes r ↦ inr (Member-upto (i + 1) n a r (omega arith))
  | no r ↦ inl (omega arith)
]

module _ (ids : List ℕ) (h : check_ids 0 (sort ids) ≡ valid) where
  pub ids-Unique : Unique ids
  ids-Unique =
      sort-Unique ids
        (subst Unique (sym (check_ids-upto 0 (sort ids) h)) (upto-Unique 0 (length (sort ids))))

  pub ids_below : (a : ℕ) → a < length ids → Member a ids
  ids_below a p = Member-sort a ids (
      subst (Member a) (sym (check_ids-upto 0 (sort ids) h))
        (Member-upto 0 (length (sort ids)) a (omega arith) (omega (arith, length-sort ids))))
