-- ===== src/Backend/Exist.antt =====
-- `Backend::exist` of bob-backend/src/core.rs: keys are grouped by the operation that looks them
-- up, each group is asked once, and the answers go back to the keys' places.
pub mod Places
pub mod Grouping
use bob.Prelude.{
  Bool, List, Option, [], all, false, get_elem?, if◌then◌else◌, is_some, length, map, none,
  replicate, set, some, ℕ, ◌++◌, ◌+◌, ◌||◌, ◌∷◌,
}
use mathlib.Core.Option
use bob.Error.{Result, ok, err}
use bob.Data.{BobKey}
use bob.Node.{DiskPath}
use bob.Map.{get, insert}
use bob.Options.{BobGetOptions, get_normal, get_alien}
use bob.Mapper.{Virtual, get_operation}
use bob.Act.{Act, pure, ◌>>=◌}
use bob.Backend.Storage.{
  Operation, BackendStorage, new_alien, new_local, is_data_alien, operation_eq,
}

-- The keys of one operation, and their places in the request.
abbrev pub Group : Type 0
Group = List BobKey × List ℕ

abbrev pub Groups : Type 0
Groups = List (Operation × Group)

unfoldable pub operations_of : BobGetOptions → ℕ → Option (List DiskPath) → List Operation
operations_of options vdisk paths =
    (if get_normal options then map (new_local vdisk) (Option.get_or paths []) else [])
    ++ (if get_alien options then new_alien vdisk ∷ [] else [])

-- `none` where the mapper panics.
unfoldable pub find_operations : Virtual → BobGetOptions → BobKey → Option (List Operation)
unfolding operations_of
find_operations m options key =
    Option.map (λ o. operations_of options o.0 o.1) (get_operation m key)

-- `entry(operation).and_modify(push both).or_insert_with(one of each)`
abbrev pub push : BobKey → ℕ → Option Group → Group
push key ind none = (key ∷ [], ind ∷ [])
push key ind (some (keys, indexes)) = (keys ++ key ∷ [], indexes ++ ind ∷ [])

unfoldable pub add_key : Groups → Operation → BobKey → ℕ → Groups
add_key groups op key ind = insert groups op (push key ind (get groups op))

unfoldable pub add_operations : Groups → List Operation → BobKey → ℕ → Groups
unfolding add_key
add_operations groups [] key ind = groups
add_operations groups (op ∷ ops) key ind = add_operations (add_key groups op key ind) ops key ind

-- The loop over the keys, the places counted from `ind`.
unfoldable pub group_keys : (BobKey → List Operation) → Groups → ℕ → List BobKey → Groups
unfolding add_operations
group_keys find groups ind [] = groups
group_keys find groups ind (key ∷ keys) =
    group_keys find (add_operations groups (find key) key ind) (ind + 1) keys

-- `exist[ind] |= res` over the answers and the places; `zip` stops at the shorter.
unfoldable pub scatter : List Bool → List ℕ → List Bool → List Bool
scatter [] indexes exist = exist
scatter (res ∷ answers) [] exist = exist
scatter (res ∷ answers) (ind ∷ indexes) exist =
    scatter answers indexes
      (set exist ind (elim (get_elem? exist ind) [ none ↦ res | some old ↦ old || res ]))

module _ {S : Type 0} (inner : BackendStorage S) where
  unfoldable pub ask : Operation → List BobKey → Act S (Result (List Bool))
  ask op keys = if is_data_alien op then inner.exist_alien op keys else inner.exist op keys

  -- The loop over the groups.
  unfoldable pub ask_groups : Groups → List Bool → Act S (List Bool)
  unfolding ask scatter
  ask_groups [] exist = pure exist
  ask_groups ((op, (keys, indexes)) ∷ groups) exist = do
    r ← ask op keys
    ask_groups groups (elim r [ ok answers ↦ scatter answers indexes exist | err e ↦ exist ])

  unfoldable pub exist_by : (BobKey → List Operation) → List BobKey → Act S (Result (List Bool))
  unfolding ask_groups group_keys
  exist_by find keys = do
    exist ← ask_groups (group_keys find [] 0 keys) (replicate (length keys) false)
    pure (ok exist)

  -- A key without a vdisk panics.
  unfoldable pub exist : Virtual → BobGetOptions → List BobKey → Option (Act S (Result (List Bool)))
  unfolding exist_by find_operations
  exist m options keys =
      if all (λ key. is_some (find_operations m options key)) keys
      then some (exist_by (λ key. Option.get_or (find_operations m options key) []) keys)
      else none
