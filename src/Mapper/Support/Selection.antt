-- ===== src/Mapper/Support/Selection.antt =====
-- Which nodes `get_support_nodes` selects (bob-common/src/mapper.rs).
use mathlib.Core.List.{append-nil}
use bob.Prelude.{
  All, Bool, Bool-cases, List, Member, [], ap, arith, dec_lt, eqb_refl, false, filter, inl, inr,
  length, length-filter-le, length-take, le→ltb, lt→ltb, not, refl, some, subst, suc, sym, take,
  take-append-le, true, ℕ, ◌&&◌, ◌++◌, ◌+◌, ◌<◌, ◌∙◌, ◌∷◌, ◌≡◌, ◌≤◌,
}
use bob.Node.{Node}
use bob.Mapper.Offset.{not_target, is_available}
use bob.Mapper.Support.{fill_from, first_test, second_test, support_nodes_from}
use bob.Mapper.Support.Rotation.{visits, fill, fill_from-fill}
use bob.Mapper.Support.Passes.{Distinct, fill-steady, fill-second, take-all}
use bob.Mapper.Support.Order.{Indexed, visits-Distinct, length-visits, visits-all}

-- Not connected, and not one of the targets.
abbrev pub is_backup : List Node → Node → Bool
is_backup targets node = not node.conn_available && not_target targets node

abbrev is_target : List Node → Node → Bool
is_target targets node = not (not_target targets node)

-- All the nodes in the order of the visit.
abbrev pub rotation : List Node → ℕ → List Node
rotation nodes start = visits nodes start 0 (length nodes)

filter-ext :
    (p q : Node → Bool) (xs : List Node) → All (λ n. p n ≡ q n) xs → filter p xs ≡ filter q xs
filter-ext p q [] h = refl
filter-ext p q (x ∷ xs) h = ground (arith, h.0, filter-ext p q xs h.1)

not_target-filter :
    (p : Node → Bool) (xs : List Node) (m : Node)
    → not_target xs m ≡ true
    → not_target (filter p xs) m ≡ true
unfolding not_target
not_target-filter p [] m h = refl
not_target-filter p (x ∷ xs) m h = ground (arith, not_target-filter p xs m)

-- One more node in front, of another index than those of `xs`.
not_target-front :
    (p : Node → Bool) (m : Node) (picked xs : List Node)
    → not_target xs m ≡ true
    → All (λ n. not_target picked n ≡ not (p n)) xs
    → All (λ n. not_target (m ∷ picked) n ≡ not (p n)) xs
unfolding not_target
not_target-front p m picked [] d h = tt
not_target-front p m picked (x ∷ xs) d h =
    (ground (arith, h.0), not_target-front p m picked xs (ground arith) h.1)

-- In a list of distinct nodes, those that a filter took are those that pass it.
picked_lem :
    (p : Node → Bool) (xs : List Node)
    → Distinct xs
    → All (λ n. not_target (filter p xs) n ≡ not (p n)) xs
picked_lem p [] d = tt
picked_lem p (x ∷ xs) d = elim (Bool-cases (p x)) [
  | inl e ↦
      let taken : filter p (x ∷ xs) ≡ x ∷ filter p xs = rw e in
      subst (λ l. All (λ n. not_target l n ≡ not (p n)) (x ∷ xs)) (sym taken)
        (
          unfold not_target in ground (arith, eqb_refl x.index),
          not_target-front p x (filter p xs) xs d.0 (picked_lem p xs d.1),
        )
  | inr e ↦
      let left : filter p (x ∷ xs) ≡ filter p xs = rw e in
      subst (λ l. All (λ n. not_target l n ≡ not (p n)) (x ∷ xs)) (sym left)
        (rw e (not_target-filter p xs x d.0), picked_lem p xs d.1)
]

module _ (targets : List Node) where
  split_length :
      (xs : List Node)
      → length (filter (is_available targets) xs)
          + length (filter (is_backup targets) xs)
          + length (filter (is_target targets) xs)
        ≡ length xs
  unfolding is_available
  split_length [] = omega arith
  split_length (x ∷ xs) = ground (arith, split_length xs)

target_mono :
    (t : Node) (ts xs : List Node)
    → length (filter (is_target ts) xs) ≤ length (filter (is_target (t ∷ ts)) xs)
unfolding not_target
target_mono t ts [] = omega arith
target_mono t ts (x ∷ xs) = ground (arith, target_mono t ts xs)

not_target-index :
    (ts : List Node) (t x : Node) → t.index ≡ x.index → not_target ts t ≡ not_target ts x
unfolding not_target
not_target-index [] t x e = refl
not_target-index (y ∷ ts) t x e = ground (arith, not_target-index ts t x e)

target_more :
    (t : Node) (ts xs : List Node)
    → not_target xs t ≡ false
    → not_target ts t ≡ true
    → suc (length (filter (is_target ts) xs)) ≤ length (filter (is_target (t ∷ ts)) xs)
unfolding not_target
target_more t ts [] h d = cc
target_more t ts (x ∷ xs) h d =
    ground (arith, not_target-index ts t x, target_mono t ts xs, target_more t ts xs)

-- Distinct targets that all occur among the nodes are as many nodes.
targets_counted :
    (ts xs : List Node)
    → Distinct ts
    → All (λ t. not_target xs t ≡ false) ts
    → length ts ≤ length (filter (is_target ts) xs)
targets_counted [] xs d h = omega arith
targets_counted (t ∷ ts) xs d h =
    omega (arith, target_more t ts xs h.0 d.0, targets_counted ts xs d.1 h.1)

here : (t : Node) (ys : List Node) → Member t ys → not_target ys t ≡ false
unfolding not_target
here t [] m = absurd m
here t (y ∷ ys) (inl e) = ground (arith, eqb_refl y.index, ap (λ n. n.index) e)
here t (y ∷ ys) (inr m) = ground (arith, here t ys m)

-- Distinct nodes of a list are no more than these.
pub no_more_than_nodes :
    (ts xs : List Node) → Distinct ts → All (λ t. Member t xs) ts → length ts ≤ length xs
no_more_than_nodes ts xs d h =
    omega (arith, targets_counted ts xs d (occur ts h), length-filter-le (is_target ts) xs)
  where
    occur : (us : List Node) → All (λ t. Member t xs) us → All (λ t. not_target xs t ≡ false) us
    occur [] k = tt
    occur (u ∷ us) k = (here u xs k.0, occur us k.1)

second_backup :
    (targets picked xs : List Node)
    → All (λ n. not_target picked n ≡ not (is_available targets n)) xs
    → filter (second_test targets picked) xs ≡ filter (is_backup targets) xs
unfolding is_available
second_backup targets picked [] h = refl
second_backup targets picked (x ∷ xs) h = ground (arith, h.0, second_backup targets picked xs h.1)

length_zero : (xs : List Node) → length xs ≡ 0 → xs ≡ []
length_zero [] h = refl
length_zero (x ∷ xs) h = absurd (omega arith)

module _ (nodes targets : List Node) (start count : ℕ) (indexed : Indexed 0 nodes) where
  abbrev order : List Node
  order = rotation nodes start

  abbrev available : List Node
  available = filter (is_available targets) order

  abbrev backup : List Node
  backup = filter (is_backup targets) order

  order-Distinct : Distinct order
  order-Distinct = visits-Distinct nodes start indexed 0 (length nodes) (omega arith)

  first_pass : 0 < count → fill (first_test targets) count order [] ≡ take count available
  first_pass p = fill-steady (is_available targets) count order [] p

  -- The second pass after a first one that took all the available nodes.
  second_pass :
      length available < count
      → fill (second_test targets) count order available ≡ take count (available ++ backup)
  second_pass p =
      fill-second targets count order available order-Distinct p
      ∙ ap (λ l. take count (available ++ l))
          (second_backup targets available order
            (picked_lem (is_available targets) order order-Distinct))

  -- Where the nodes found and the targets are all the nodes, no other is left.
  no_backup :
      Distinct targets
      → All (λ t. Member t nodes) targets
      → 0 < length nodes
      → length nodes ≤ length available + length targets
      → backup ≡ []
  no_backup d h p q = length_zero backup (
      omega (
        arith,
        split_length targets order,
        length-visits nodes start 0 (length nodes) p,
        targets_counted targets order d (occur targets h),
      ))
    where
      occur :
          (ts : List Node) → All (λ t. Member t nodes) ts → All (λ t. not_target order t ≡ false) ts
      occur [] m = tt
      occur (t ∷ ts) m = (visits-all nodes start t m.0, occur ts m.1)

  passes :
      (admits : List Node → Node → Bool) (support : List Node)
      → 0 < length nodes
      → fill_from nodes start admits count 0 (length nodes) support
        ≡ some (fill admits count order support)
  passes admits support h = fill_from-fill nodes start admits count 0 (length nodes) support h

  -- The selection, for nodes numbered by their position, when the targets are distinct nodes of
  -- the list, fewer than these, and `count` is at least one: no index is out of bounds, and it
  -- takes the connected nodes that are not targets, in the order of the visit, then the
  -- disconnected ones, the first `count` of all these.
  pub support_nodes_from-lem :
      0 < count
      → Distinct targets
      → All (λ t. Member t nodes) targets
      → length targets < length nodes
      → support_nodes_from nodes targets start count
        ≡ some
            (take count (filter (is_available targets) order ++ filter (is_backup targets) order))
  unfolding support_nodes_from
  support_nodes_from-lem p d h lt = elim (dec_lt (length available) count) [
    | yes q ↦ elim (dec_lt (length available + length targets) (length nodes)) [
      | yes r ↦
          rw
            (
              support_nodes_from,
              passes (first_test targets) [] (omega arith),
              first_pass p,
              take-all count available (omega arith),
              lt→ltb (length available) count q,
              lt→ltb (length available + length targets) (length nodes) r,
            )
            (passes (second_test targets) available (omega arith) ∙ ap some (second_pass q))
      | no r ↦
          rw
            (
              support_nodes_from,
              passes (first_test targets) [] (omega arith),
              first_pass p,
              take-all count available (omega arith),
              lt→ltb (length available) count q,
              le→ltb (length available + length targets) (length nodes) (omega arith),
              no_backup d h (omega arith) (omega arith),
              append-nil,
            )
            (ap some (sym (take-all count available (omega arith))))
    ]
    | no q ↦
        rw
          (
            support_nodes_from,
            passes (first_test targets) [] (omega arith),
            first_pass p,
            le→ltb (length (take count available)) count
                (omega (arith, length-take count available)),
          )
          (ap some (sym (take-append-le count available backup (omega arith))))
  ]
