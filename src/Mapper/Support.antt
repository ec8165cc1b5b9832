-- ===== src/Mapper/Support.antt =====
-- The two passes of `get_support_nodes` of bob-common/src/mapper.rs, from a starting index.
pub mod Rotation
pub mod Passes
pub mod Order
pub mod Selection
use bob.Prelude.{
  Bool, List, Option, [], get_elem?, if◌then◌else◌, leb, length, ltb, none, some, suc, zero, ℕ,
  ◌&&◌, ◌++◌, ◌+◌, ◌∷◌,
}
use bob.Node.{Node}
use bob.Mapper.Offset.{checked_rem, not_target, is_available}

-- `nodes[(i + starting_index) % len]`, which panics for no nodes and out of bounds.
unfoldable pub node_at : List Node → ℕ → Option Node
node_at nodes i = elim (checked_rem i (length nodes)) [ none ↦ none | some j ↦ get_elem? nodes j ]

-- One pass from the round `i` on: push the nodes that the test admits, until there are `count`.
unfoldable pub fill_from :
    List Node → ℕ → (List Node → Node → Bool) → ℕ → ℕ → ℕ → List Node → Option (List Node)
fill_from nodes start admits count i zero support = some support
fill_from nodes start admits count i (suc rounds) support = elim (node_at nodes (i + start)) [
  | none ↦ none
  | some node ↦
      let pushed = support ++ node ∷ [] in
      let more = fill_from nodes start admits count (i + 1) rounds pushed in
      let skip = fill_from nodes start admits count (i + 1) rounds support in
      if admits support node
      then (if leb count (length pushed) then some pushed else more)
      else skip
]

abbrev pub first_test : List Node → List Node → Node → Bool
first_test targets support node = is_available targets node

abbrev pub second_test : List Node → List Node → Node → Bool
second_test targets support node = not_target support node && not_target targets node

unfoldable pub support_nodes_from : List Node → List Node → ℕ → ℕ → Option (List Node)
unfolding fill_from
support_nodes_from nodes targets start count =
    elim (fill_from nodes start (first_test targets) count 0 (length nodes) []) [
      | none ↦ none
      | some first ↦
          if ltb (length first) count && ltb (length first + length targets) (length nodes)
          then fill_from nodes start (second_test targets) count 0 (length nodes) first
          else some first
    ]
