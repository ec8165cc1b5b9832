-- ===== src/Cluster/IndexMap.antt =====
-- `IndexMap` of bob/src/cluster/support_types.rs: the places, among the keys of a request, of those
-- that one node is asked for. `none` is a panic: an index out of bounds, or an assertion.
pub mod Laws
use bob.Prelude.{
  Bool, List, Option, [], eqb, false, get_elem?, if◌then◌else◌, length, none, set, some, true, ℕ,
  ◌+◌, ◌||◌, ◌∷◌,
}

abbrev pub IndexMap : Type 0
IndexMap = List ℕ

-- The places of the `false` values, counted from `ind`.
unfoldable pub where_from : ℕ → List Bool → IndexMap
where_from ind [] = []
where_from ind (b ∷ items) =
    if b then where_from (ind + 1) items else ind ∷ where_from (ind + 1) items

unfoldable pub where_not_exists : List Bool → IndexMap
unfolding where_from
where_not_exists items = where_from 0 items

abbrev pub add_item {ℓ} : {A : Type ℓ} → Option A → Option (List A) → Option (List A)
add_item none rest = none
add_item (some x) none = none
add_item (some x) (some rest) = some (x ∷ rest)

unfoldable pub collect {ℓ} : {A : Type ℓ} → IndexMap → List A → Option (List A)
collect [] items = some []
collect (i ∷ indexes) items = add_item (get_elem? items i) (collect indexes items)

-- `original[ind] |= mapped[i]` for each index.
unfoldable pub update_from : IndexMap → List Bool → List Bool → Option (List Bool)
update_from [] original mapped = some original
update_from (i ∷ indexes) original [] = none
update_from (i ∷ indexes) original (b ∷ mapped) = elim (get_elem? original i) [
  | none ↦ none
  | some old ↦ update_from indexes (set original i (old || b)) mapped
]

unfoldable pub update_existence : IndexMap → List Bool → List Bool → Option (List Bool)
unfolding update_from
update_existence indexes original mapped =
    if eqb (length indexes) (length mapped) then update_from indexes original mapped else none

abbrev pub retain_one : ℕ → Option Bool → Option IndexMap → Option IndexMap
retain_one i none rest = none
retain_one i (some b) none = none
retain_one i (some true) (some rest) = some rest
retain_one i (some false) (some rest) = some (i ∷ rest)

unfoldable pub retain_not_existed : IndexMap → List Bool → Option IndexMap
retain_not_existed [] original = some []
retain_not_existed (i ∷ indexes) original =
    retain_one i (get_elem? original i) (retain_not_existed indexes original)
