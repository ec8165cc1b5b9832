-- ===== src/Mapper/Support/Passes.antt =====
-- What each pass of `get_support_nodes` takes (bob-common/src/mapper.rs).
use mathlib.Core.List.{append-nil, append_assoc}
use bob.Prelude.{
  Bool-cases, ap, arith, dec_le, filter, gt→leb, inl, inr, length-append, le→leb, refl, sym, take,
  true, zero, ℕ, ◌&&◌, ◌++◌, ◌+◌, ◌<◌, ◌≡◌, ◌≤◌,
}
use bob.Node.{Node}
use bob.Mapper.Offset.{not_target}
use bob.Mapper.Support.{second_test, List, Bool, ◌∷◌, length, [], suc}
use bob.Mapper.Support.Rotation.{fill}

-- No two nodes of the list have the same index.
abbrev pub Distinct : List Node → Type 0
Distinct [] = Unit
Distinct (node ∷ nodes) = (not_target nodes node ≡ true) × Distinct nodes

pub take-all {ℓ} : {A : Type ℓ} (n : ℕ) (xs : List A) → length xs ≤ n → take n xs ≡ xs
take-all zero [] h = refl
take-all zero (x ∷ xs) h = elim h [ ]
take-all (suc n) [] h = refl
take-all (suc n) (x ∷ xs) h = ap (◌∷◌ x) (take-all n xs (omega arith))

pub take-prefix {ℓ} : {A : Type ℓ} (n : ℕ) (xs ys : List A) → length xs ≡ n → take n (xs ++ ys) ≡ xs
take-prefix zero [] ys h = refl
take-prefix zero (x ∷ xs) ys h = absurd (omega arith)
take-prefix (suc n) [] ys h = absurd (omega arith)
take-prefix (suc n) (x ∷ xs) ys h = ap (◌∷◌ x) (take-prefix n xs ys (omega arith))

snoc-append {ℓ} : {A : Type ℓ} (xs ys : List A) (y : A) → (xs ++ y ∷ []) ++ ys ≡ xs ++ y ∷ ys
snoc-append xs ys y = append_assoc xs (y ∷ []) ys

length-snoc {ℓ} : {A : Type ℓ} (xs : List A) (y : A) → length (xs ++ y ∷ []) ≡ length xs + 1
length-snoc xs y = length-append xs (y ∷ [])

-- A test that does not look at what was taken so far.
pub fill-steady :
    (p : Node → Bool) (count : ℕ) (order support : List Node)
    → length support < count
    → fill (λ s n. p n) count order support ≡ take count (support ++ filter p order)
unfolding fill
fill-steady p count [] support h = sym (rw append-nil (take-all count support (omega arith)))
fill-steady p count (node ∷ order) support h = elim (Bool-cases (p node)) [
  | inr e ↦ rw e (fill-steady p count order support h)
  | inl e ↦ elim (dec_le count (length (support ++ node ∷ []))) [
    | yes q ↦
        rw
          (
            e,
            le→leb count (length (support ++ node ∷ [])) q,
            ← snoc-append support (filter p order) node,
          )
          (sym (
            take-prefix count (support ++ node ∷ []) (filter p order)
              (omega (arith, length-snoc support node))))
    | no q ↦
        rw
          (
            e,
            gt→leb count (length (support ++ node ∷ [])) (omega arith),
            ← snoc-append support (filter p order) node,
          )
          (fill-steady p count order (support ++ node ∷ []) (omega arith))
  ]
]

not_target-append :
    (xs ys : List Node) (n : Node) → not_target (xs ++ ys) n ≡ (not_target xs n && not_target ys n)
unfolding not_target
not_target-append [] ys n = refl
not_target-append (x ∷ xs) ys n = ground (arith, not_target-append xs ys n)

-- In a list of distinct nodes the second test sees only what was there before the pass.
second_test_steady :
    (targets support : List Node) (node : Node) (order : List Node)
    → not_target order node ≡ true
    → filter (second_test targets (support ++ node ∷ [])) order
      ≡ filter (second_test targets support) order
unfolding not_target
second_test_steady targets support node [] d = refl
second_test_steady targets support node (m ∷ order) d =
    ground (
      arith,
      not_target-append support (node ∷ []) m,
      second_test_steady targets support node order,
    )

pub fill-second :
    (targets : List Node) (count : ℕ) (order support : List Node)
    → Distinct order
    → length support < count
    → fill (second_test targets) count order support
      ≡ take count (support ++ filter (second_test targets support) order)
unfolding fill
fill-second targets count [] support d h =
    sym (rw append-nil (take-all count support (omega arith)))
fill-second targets count (node ∷ order) support d h =
    elim (Bool-cases (second_test targets support node)) [
      | inr e ↦ rw e (fill-second targets count order support d.1 h)
      | inl e ↦ elim (dec_le count (length (support ++ node ∷ []))) [
        | yes q ↦
            rw
              (
                e,
                le→leb count (length (support ++ node ∷ [])) q,
                ← snoc-append support (filter (second_test targets support) order) node,
              )
              (sym (
                take-prefix count (support ++ node ∷ [])
                  (filter (second_test targets support) order)
                  (omega (arith, length-snoc support node))))
        | no q ↦
            rw
              (
                e,
                gt→leb count (length (support ++ node ∷ [])) (omega arith),
                ← snoc-append support (filter (second_test targets support) order) node,
                ← second_test_steady targets support node order d.0,
              )
              (fill-second targets count order (support ++ node ∷ []) d.1 (omega arith))
      ]
    ]
