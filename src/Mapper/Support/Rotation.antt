-- ===== src/Mapper/Support/Rotation.antt =====
-- What the loops of `get_support_nodes` (bob-common/src/mapper.rs) come to where no index is out of
-- bounds: the nodes in the order of the visit, and one walk over them.
use native.Mathlib.Nat.{mod-lt}
use bob.Prelude.{
  Bool, Bool-cases, List, [], arith, get_elem?, if◌then◌else◌, inl, inr, leb, length, none, refl,
  some, suc, zero, ℕ, ◌%◌, ◌++◌, ◌+◌, ◌<◌, ◌∷◌, ◌≡◌,
}
use bob.Node.{Node}
use bob.Mapper.Offset.{checked_rem}
use bob.Mapper.Support.{node_at, fill_from}

-- The nodes `nodes[(i + starting_index) % len]` for the next `rounds` values of `i`.
unfoldable pub visits : List Node → ℕ → ℕ → ℕ → List Node
visits nodes start i zero = []
visits nodes start i (suc rounds) =
    let rest = visits nodes start (i + 1) rounds in
    elim (get_elem? nodes ((i + start) % length nodes)) [ none ↦ rest | some node ↦ node ∷ rest ]

-- One pass: push the nodes that the test admits, until there are `count`.
unfoldable pub fill : (List Node → Node → Bool) → ℕ → List Node → List Node → List Node
fill admits count [] support = support
fill admits count (node ∷ nodes) support =
    let pushed = support ++ node ∷ [] in
    let more = fill admits count nodes pushed in
    let skip = fill admits count nodes support in
    if admits support node then (if leb count (length pushed) then pushed else more) else skip

get_elem?-lt : (xs : List Node) (k : ℕ) → k < length xs → (x : Node) × (get_elem? xs k ≡ some x)
get_elem?-lt [] k h = elim h [ ]
get_elem?-lt (x ∷ xs) zero h = (x, refl)
get_elem?-lt (x ∷ xs) (suc k) h = get_elem?-lt xs k (omega arith)

checked_rem-some : (a b : ℕ) → 0 < b → checked_rem a b ≡ some (a % b)
unfolding checked_rem
checked_rem-some a zero h = absurd (omega arith)
checked_rem-some a (suc b) h = refl

-- A round in a list that is not empty visits one node, without a panic.
pub visits_round :
    (nodes : List Node) (start i rounds : ℕ)
    → 0 < length nodes
    → (m : Node) × (get_elem? nodes ((i + start) % length nodes) ≡ some m)
      × (visits nodes start i (suc rounds) ≡ m ∷ visits nodes start (i + 1) rounds)
      × (node_at nodes (i + start) ≡ some m)
unfolding visits node_at
visits_round nodes start i rounds h =
    let (m, f) = get_elem?-lt nodes ((i + start) % length nodes) (mod-lt (i + start) h) in
    (m, f, rw (f, visits), rw (node_at, checked_rem-some (i + start) (length nodes) h) f)

-- A pass does not panic, and is a walk over the nodes in the order of the visit.
pub fill_from-fill :
    (nodes : List Node) (start : ℕ) (admits : List Node → Node → Bool) (count i rounds : ℕ)
    (support : List Node)
    → 0 < length nodes
    → fill_from nodes start admits count i rounds support
      ≡ some (fill admits count (visits nodes start i rounds) support)
unfolding fill_from fill
fill_from-fill nodes start admits count i zero support h = unfold visits in refl
fill_from-fill nodes start admits count i (suc rounds) support h =
    let (m, f, v, a) = visits_round nodes start i rounds h in
    let more = fill_from-fill nodes start admits count (i + 1) rounds (support ++ m ∷ []) h in
    let skip = fill_from-fill nodes start admits count (i + 1) rounds support h in
    rw (v, fill_from, a)
      (elim (Bool-cases (admits support m)) [
        | inr e ↦ rw e skip
        | inl e ↦ elim (Bool-cases (leb count (length (support ++ m ∷ [])))) [
          | inl b ↦ rw (e, b) refl
          | inr b ↦ rw (e, b) more
        ]
      ])
