-- ===== src/Mapper/Support/Order.antt =====
-- The order in which `get_support_nodes` visits the nodes (bob-common/src/mapper.rs).
use native.Mathlib.Nat.{mod-lt, div-add-mod, mul-add-mod_self_left, mod-eq_of_lt}
use bob.Prelude.{
  List, Member, [], ap, arith, dec_le, eqb_refl, false, get_elem?, inl, inr, length, refl, some,
  suc, sym, true, zero, ℕ, ◌%◌, ◌+◌, ◌-◌, ◌/◌, ◌<◌, ◌∙◌, ◌∷◌, ◌≡◌, ◌≢◌, ◌≤◌,
}
use bob.Node.{Node}
use bob.Mapper.Offset.{not_target}
use bob.Mapper.Support.Rotation.{visits, visits_round}
use bob.Mapper.Support.Passes.{Distinct}

-- Each node's index is its position, counted from `i`, as `prepare_nodes` numbers them.
abbrev pub Indexed : ℕ → List Node → Type 0
Indexed i [] = Unit
Indexed i (node ∷ nodes) = (node.index ≡ i) × Indexed (i + 1) nodes

Indexed-get_elem? :
    (i : ℕ) (nodes : List Node) (j : ℕ) (n : Node)
    → Indexed i nodes
    → get_elem? nodes j ≡ some n
    → n.index ≡ i + j
Indexed-get_elem? i [] j n h e = cc
Indexed-get_elem? i (node ∷ nodes) zero n h e = ground arith
Indexed-get_elem? i (node ∷ nodes) (suc j) n h e =
    omega (arith, Indexed-get_elem? (i + 1) nodes j n h.1 e)

mod_injective : (a b len : ℕ) → a < b → b < a + len → a % len ≢ b % len
mod_injective a b len p q e = grind (arith, div-add-mod a len, div-add-mod b len)

module _ (nodes : List Node) (start : ℕ) (indexed : Indexed 0 nodes) where
  visited_once :
      (i j rounds : ℕ) (n : Node)
      → n.index ≡ (i + start) % length nodes
      → i < j
      → j + rounds ≤ i + length nodes
      → not_target (visits nodes start j rounds) n ≡ true
  unfolding not_target
  visited_once i j zero n e p q = unfold visits in refl
  visited_once i j (suc rounds) n e p q =
      let (m, f, v, _) = visits_round nodes start j rounds (omega arith) in
      let ne = mod_injective (i + start) (j + start) (length nodes) (omega arith) (omega arith) in
      let im = Indexed-get_elem? 0 nodes _ m indexed f in
      let rest = visited_once i (j + 1) rounds n e (omega arith) (omega arith) in
      rw v (ground (arith, rest, ne, im))

  -- No node is visited twice in `length nodes` rounds.
  pub visits-Distinct :
      (i rounds : ℕ) → rounds ≤ length nodes → Distinct (visits nodes start i rounds)
  visits-Distinct i zero q = unfold visits in tt
  visits-Distinct i (suc rounds) q =
      let (m, f, v, _) = visits_round nodes start i rounds (omega arith) in
      let im = Indexed-get_elem? 0 nodes _ m indexed f in
      rw v (
        visited_once i (i + 1) rounds m (omega (arith, im)) (omega arith) (omega arith),
        visits-Distinct (i + 1) rounds (omega arith),
      )

pub length-visits :
    (nodes : List Node) (start i rounds : ℕ)
    → 0 < length nodes
    → length (visits nodes start i rounds) ≡ rounds
length-visits nodes start i zero h = unfold visits in refl
length-visits nodes start i (suc rounds) h =
    let (m, f, v, _) = visits_round nodes start i rounds h in
    rw v (ap suc (length-visits nodes start (i + 1) rounds h))

visits_reach :
    (nodes : List Node) (start i rounds k : ℕ) (n : Node)
    → 0 < length nodes
    → i ≤ k
    → k < i + rounds
    → get_elem? nodes ((k + start) % length nodes) ≡ some n
    → not_target (visits nodes start i rounds) n ≡ false
unfolding not_target
visits_reach nodes start i zero k n h p q e = absurd (omega arith)
visits_reach nodes start i (suc rounds) k n h p q e =
    let (m, f, v, _) = visits_round nodes start i rounds h in
    elim (dec_le (i + 1) k) [
      | yes r ↦
          rw v (ground (arith, visits_reach nodes start (i + 1) rounds k n h r (omega arith) e))
      | no r ↦
          let same : i ≡ k = omega arith in
          rw v (
            ground (
              arith,
              f,
              e,
              ap (λ (t : ℕ). get_elem? nodes ((t + start) % length nodes)) same,
              eqb_refl n.index,
            ))
    ]

-- The round at which position `j` comes.
round_of : (j start len : ℕ) → j < len → (k : ℕ) × (k < len) × ((k + start) % len ≡ j)
round_of j start len h = elim (dec_le (start % len) j) [
  | yes p ↦ (
    j - start % len,
    omega arith,
    ap (λ (t : ℕ). t % len) (omega (arith, div-add-mod start len))
        ∙ mul-add-mod_self_left len (start / len) j
        ∙ mod-eq_of_lt h,
  )
  | no p ↦ (
    j + len - start % len,
    omega (arith, mod-lt start {m = len} (omega arith)),
    ap (λ (t : ℕ). t % len)
          (omega (arith, div-add-mod start len, mod-lt start {m = len} (omega arith)))
        ∙ mul-add-mod_self_left len (start / len + 1) j
        ∙ mod-eq_of_lt h,
  )
]

position :
    (i : ℕ) (nodes : List Node) (n : Node)
    → Member n nodes
    → (j : ℕ) × (j < length nodes) × (get_elem? nodes j ≡ some n)
position i [] n h = absurd h
position i (m ∷ nodes) n (inl e) = (0, omega arith, ap some (sym e))
position i (m ∷ nodes) n (inr h) = let (j, p, f) = position i nodes n h in (suc j, omega arith, f)

-- Every node is visited within `length nodes` rounds.
pub visits-all :
    (nodes : List Node) (start : ℕ) (n : Node)
    → Member n nodes
    → not_target (visits nodes start 0 (length nodes)) n ≡ false
visits-all nodes start n h =
    let (j, p, f) = position 0 nodes n h in
    let (k, q, e) = round_of j start (length nodes) p in
    visits_reach nodes start 0 (length nodes) k n (omega arith) (omega arith) (omega arith) (rw e f)
