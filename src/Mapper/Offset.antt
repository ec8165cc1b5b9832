-- ===== src/Mapper/Offset.antt =====
-- `find_support_node_offset` of bob-common/src/mapper.rs, and its pass over the nodes.
pub mod Uniform
use bob.Prelude.{
  Bool, List, Option, [], all, eqb, false, if◌then◌else◌, leb, length, ltb, none, not, some, suc,
  zero, ℕ, ◌%◌, ◌&&◌, ◌+◌, ◌-◌, ◌∷◌,
}
use bob.Node.{Node}

pub record SupportIndexResult : Type 0 where
  pub index : Option ℕ
  pub avail : ℕ

-- Not one of the targets: `target_nodes.iter().all(|n| n.index() != node.index())`.
unfoldable pub not_target : List Node → Node → Bool
not_target targets node = all (λ n. not (eqb n.index node.index)) targets

-- Connected, and not one of the targets.
unfoldable pub is_available : List Node → Node → Bool
is_available targets node = node.conn_available && not_target targets node

-- The loop over the indices `i` and the count `avail` so far.
unfoldable pub pass_from : List Node → ℕ → ℕ → List Node → ℕ → SupportIndexResult
pass_from targets offset i [] avail = record { index = none; avail = avail }
pass_from targets offset i (node ∷ nodes) avail =
    let found : SupportIndexResult = record { index = some i; avail = avail + 1 } in
    let next = pass_from targets offset (i + 1) nodes (avail + 1) in
    let skip = pass_from targets offset (i + 1) nodes avail in
    if is_available targets node then (if eqb avail offset then found else next) else skip

unfoldable pub try_find_support_node_offset_at_one_pass :
    List Node → List Node → ℕ → SupportIndexResult
unfolding pass_from
try_find_support_node_offset_at_one_pass nodes targets offset = pass_from targets offset 0 nodes 0

-- `debug_assert!`, in a build with or without debug assertions.
abbrev pub debug_assert : {A : Type 0} → Bool → Bool → Option A → Option A
debug_assert debug_assertions condition rest =
    if debug_assertions && not condition then none else rest

-- The whole pass with its `debug_assert!` on the offset; `none` is a panic.
unfoldable pub asserted_pass : Bool → List Node → List Node → ℕ → Option SupportIndexResult
asserted_pass debug_assertions nodes targets offset =
    debug_assert debug_assertions (leb offset (length nodes))
      (some (try_find_support_node_offset_at_one_pass nodes targets offset))

-- The condition of the `while` loop.
unfoldable pub is_searching : SupportIndexResult → Bool
is_searching res = elim res.index [ some i ↦ false | none ↦ ltb 0 res.avail ]

-- The `while` loop, on fuel; `none` where the fuel runs out before the loop ends, or for a panic.
unfoldable pub retry :
    Bool → ℕ → List Node → List Node → ℕ → SupportIndexResult → Option SupportIndexResult
unfolding is_searching
retry debug_assertions zero nodes targets curr_offset res =
    if is_searching res then none else some res
retry debug_assertions (suc fuel) nodes targets curr_offset res =
    let rest : Option SupportIndexResult =
      elim (asserted_pass debug_assertions nodes targets curr_offset) [
        | none ↦ none
        | some res' ↦
            retry debug_assertions fuel nodes targets
              (if ltb res'.avail curr_offset then curr_offset - res'.avail else 0) res'
      ] in
    if is_searching res then rest else some res

-- The remainder, which panics for a divisor of zero.
unfoldable pub checked_rem : ℕ → ℕ → Option ℕ
checked_rem a zero = none
checked_rem a (suc b) = some (a % suc b)

-- While the flags do not change the loop takes one round, so one unit of fuel is enough. The
-- remainder by `avail` is used only by a loop that starts, where `avail` is not zero.
unfoldable pub find_support_node_offset : Bool → List Node → List Node → ℕ → Option ℕ
unfolding checked_rem
find_support_node_offset debug_assertions nodes targets offset =
    if leb (length nodes) (length targets)
    then checked_rem offset (length nodes)
    else (elim (asserted_pass debug_assertions nodes targets
        (offset % (length nodes - length targets))) [
          | none ↦ none
          | some res ↦ elim (retry debug_assertions 1 nodes targets (offset % res.avail) res) [
            | none ↦ none
            | some res' ↦ elim res'.index [
              | some index ↦ some index
              | none ↦ checked_rem offset (length nodes)
            ]
          ]
        ])
