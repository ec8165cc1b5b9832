-- ===== src/Cluster/Exist.antt =====
-- `Quorum::exist` of bob/src/cluster/quorum.rs, with the calls of operations.rs. Nothing is changed
-- by a question, so that the answers are functions, of the backend here and of the other nodes
-- through their clients. Nodes are compared, hashed and called by their names, and a `HashMap` of
-- nodes is a map by name. A call to a node without a connection is answered by an error. A panic
-- is `none`.
pub mod Maps
pub mod Grouping
pub mod Steps
pub mod Gathering
pub mod Replies
pub mod Aliens
pub mod Sources
use bob.Prelude.{
  Bool, List, Option, String, [], all, any, false, filter, find?, if◌then◌else◌, is_some, length,
  map, none, not, replicate, some, ℕ, ◌++◌, ◌+◌, ◌==◌, ◌||◌, ◌∷◌,
}
use mathlib.Core.Option
use bob.Error.{Result, ok, err}
use bob.Data.{BobKey}
use bob.Node.{Node}
use bob.Map.{get, insert, string_eq}
use bob.Mapper.{Virtual, get_target_nodes_for_key}
use bob.Cluster.IndexMap.{IndexMap, where_not_exists, collect, update_existence, retain_not_existed}

pub record Answers : Type 0 where
  pub on_local : List BobKey → Result (List Bool)
  pub on_local_alien : List BobKey → Result (List Bool)
  pub on_remote : String → List BobKey → Result (List Bool)
  pub on_remote_alien : String → List BobKey → Result (List Bool)
  -- The order in which concurrent calls, by the names of their nodes, complete.
  pub completion : List String → List String

abbrev pub NodeIndexes : Type 0
NodeIndexes = List (String × IndexMap)

abbrev pub NodeKeys : Type 0
NodeKeys = List (String × List BobKey)

-- What `group_by_nodes` fills.
pub record Groups : Type 0 where
  pub on_local : IndexMap
  pub primary : NodeIndexes
  pub secondary : NodeIndexes

-- `push` on the entry of a node, which `entry(..).or_insert(..)` makes where there is none.
abbrev pub pushed : ℕ → Option IndexMap → IndexMap
pushed index none = index ∷ []
pushed index (some indexes) = indexes ++ index ∷ []

-- Where neither this node nor a primary node holds the key, the first node that is not secondary
-- becomes primary.
unfoldable pub choose_primary : String → List Node → Groups → Groups
choose_primary local_node targets g =
    if any (λ n. (n.name == local_node) || is_some (get g.primary n.name)) targets
    then g
    else (elim (find? (λ n. not (is_some (get g.secondary n.name))) targets) [
      | none ↦ g
      | some n ↦ record g { primary = insert g.primary n.name [] }
    ])

unfoldable pub place_remote : ℕ → String → Option IndexMap → Groups → Groups
place_remote index name (some indexes) g = record g {
  primary = insert g.primary name (pushed index (some indexes));
}
place_remote index name none g = record g {
  secondary = insert g.secondary name (pushed index (get g.secondary name));
}

unfoldable pub place_node : String → ℕ → Node → Groups → Groups
unfolding place_remote
place_node local_node index n g =
    if n.name == local_node
    then record g { on_local = g.on_local ++ index ∷ [] }
    else place_remote index n.name (get g.primary n.name) g

unfoldable pub place_nodes : String → ℕ → List Node → Groups → Groups
unfolding place_node
place_nodes local_node index [] g = g
place_nodes local_node index (n ∷ targets) g =
    place_nodes local_node index targets (place_node local_node index n g)

-- The loop over the keys, the places counted from `index`.
unfoldable pub group_from : String → (BobKey → List Node) → ℕ → List BobKey → Groups → Groups
unfolding place_nodes choose_primary
group_from local_node targets index [] g = g
group_from local_node targets index (key ∷ keys) g =
    group_from local_node targets (index + 1) keys
      (place_nodes local_node index (targets key) (choose_primary local_node (targets key) g))

unfoldable pub group_by_nodes : String → (BobKey → List Node) → List BobKey → Groups
unfolding group_from
group_by_nodes local_node targets keys =
    group_from local_node targets 0 keys (record { on_local = []; primary = []; secondary = [] })

-- The maps without the keys that were found, and the keys to ask each node for.
abbrev pub Gathered : Type 0
Gathered = NodeIndexes × NodeKeys

abbrev pub with_keys : String → IndexMap → Option (List BobKey) → Gathered → Option Gathered
with_keys name kept none rest = none
with_keys name kept (some keys) (maps, asked) = some ((name, kept) ∷ maps, insert asked name keys)

abbrev pub gather_one : String → List BobKey → Option IndexMap → Option Gathered → Option Gathered
gather_one name keys none rest = none
gather_one name keys (some kept) none = none
gather_one name keys (some []) (some (maps, asked)) = some ((name, []) ∷ maps, asked)
gather_one name keys (some (i ∷ kept)) (some rest) =
    with_keys name (i ∷ kept) (collect (i ∷ kept) keys) rest

unfoldable pub gather : List Bool → List BobKey → NodeIndexes → Option Gathered
gather result keys [] = some ([], [])
gather result keys ((name, indexes) ∷ maps) =
    gather_one name keys (retain_not_existed indexes result) (gather result keys maps)

-- An answer put in place; an error is passed over.
unfoldable pub update_by : IndexMap → Result (List Bool) → List Bool → Option (List Bool)
update_by indexes (ok mapped) result = update_existence indexes result mapped
update_by indexes (err e) result = some result

-- The stages after one another; each works on the result of the one before.
abbrev pub and_then : Option (List Bool) → (List Bool → Option (List Bool)) → Option (List Bool)
and_then none next = none
and_then (some result) next = next result

abbrev pub other_nodes : Virtual → List String
other_nodes m = map (λ n. n.name) (filter (λ n. not (n.name == m.local_node_name)) m.nodes)

module _ (answers : Answers) where
  -- The reply of a node, which was asked and has a map.
  unfoldable pub apply_reply :
      String → Option (List BobKey) → Option IndexMap → List Bool → Option (List Bool)
  unfolding update_by
  apply_reply name (some asked) (some indexes) result =
      update_by indexes (answers.on_remote name asked) result
  apply_reply name (some asked) none result = none
  apply_reply name none indexes result = none

  unfoldable pub apply_replies : Gathered → List String → List Bool → Option (List Bool)
  unfolding apply_reply
  apply_replies (maps, asked) [] result = some result
  apply_replies (maps, asked) (name ∷ names) result =
      elim (apply_reply name (get asked name) (get maps name) result) [
        | none ↦ none
        | some updated ↦ apply_replies (maps, asked) names updated
      ]

  unfoldable pub ask_gathered : Option Gathered → List Bool → Option (List Bool)
  unfolding apply_replies
  ask_gathered none result = none
  ask_gathered (some (maps, asked)) result =
      apply_replies (maps, asked) (answers.completion (map (λ p. p.0) asked)) result

  unfoldable pub collect_remote_exists : List BobKey → NodeIndexes → List Bool → Option (List Bool)
  unfolding ask_gathered gather
  collect_remote_exists keys maps result = ask_gathered (gather result keys maps) result

  -- The keys at the places, asked for by `ask`, and its answer put in place.
  unfoldable pub ask_at :
      (List BobKey → Result (List Bool))
      → IndexMap
      → Option (List BobKey)
      → List Bool
      → Option (List Bool)
  unfolding update_by
  ask_at ask indexes none result = none
  ask_at ask indexes (some ks) result = update_by indexes (ask ks) result

  unfoldable pub check_local : List BobKey → IndexMap → List Bool → Option (List Bool)
  unfolding ask_at
  check_local keys [] result = some result
  check_local keys (i ∷ indexes) result =
      ask_at answers.on_local (i ∷ indexes) (collect (i ∷ indexes) keys) result

  -- The loop over the replies of the other nodes' aliens.
  unfoldable pub check_remote_aliens :
      List BobKey → IndexMap → List String → List Bool → Option (List Bool)
  unfolding update_by
  check_remote_aliens ks indexes [] result = some result
  check_remote_aliens ks indexes (name ∷ names) result =
      elim (update_by indexes (answers.on_remote_alien name ks) result) [
        | none ↦ none
        | some updated ↦ check_remote_aliens ks indexes names updated
      ]

  unfoldable pub check_elsewhere :
      List String → IndexMap → Option (List BobKey) → List Bool → Option (List Bool)
  unfolding check_remote_aliens
  check_elsewhere others indexes none result = none
  check_elsewhere others indexes (some ks) result =
      check_remote_aliens ks indexes (answers.completion others) result

  -- The aliens of the other nodes, for the keys that are left.
  unfoldable pub check_rest :
      List BobKey → List String → Option IndexMap → List Bool → Option (List Bool)
  unfolding check_elsewhere
  check_rest keys others none result = none
  check_rest keys others (some []) result = some result
  check_rest keys others (some (i ∷ indexes)) result =
      check_elsewhere others (i ∷ indexes) (collect (i ∷ indexes) keys) result

  -- With the answer of the aliens here; after an error the map is kept as it is.
  unfoldable pub check_aliens_with :
      List BobKey → List String → IndexMap → Result (List Bool) → List Bool → Option (List Bool)
  unfolding check_rest
  check_aliens_with keys others indexes (ok mapped) result =
      elim (update_existence indexes result mapped) [
        | none ↦ none
        | some updated ↦ check_rest keys others (retain_not_existed indexes updated) updated
      ]
  check_aliens_with keys others indexes (err e) result =
      check_rest keys others (some indexes) result

  unfoldable pub check_aliens_for :
      List BobKey → List String → IndexMap → Option (List BobKey) → List Bool → Option (List Bool)
  unfolding check_aliens_with
  check_aliens_for keys others indexes none result = none
  check_aliens_for keys others indexes (some ks) result =
      check_aliens_with keys others indexes (answers.on_local_alien ks) result

  unfoldable pub check_aliens :
      List BobKey → List String → IndexMap → List Bool → Option (List Bool)
  unfolding check_aliens_for
  check_aliens keys others [] result = some result
  check_aliens keys others (i ∷ indexes) result =
      check_aliens_for keys others (i ∷ indexes) (collect (i ∷ indexes) keys) result

  unfoldable pub check_groups : List BobKey → List String → Groups → List Bool → Option (List Bool)
  unfolding check_local collect_remote_exists check_aliens
  check_groups keys others g result = and_then (check_local keys g.on_local result) (λ r1.
      and_then (collect_remote_exists keys g.primary r1) (λ r2.
        and_then (collect_remote_exists keys g.secondary r2)
          (λ r3. check_aliens keys others (where_not_exists r3) r3)))

  unfoldable pub exist_for :
      Virtual → (BobKey → List Node) → List BobKey → Option (Result (List Bool))
  unfolding check_groups group_by_nodes
  exist_for m targets keys = Option.map ok (
      check_groups keys (other_nodes m) (group_by_nodes m.local_node_name targets keys)
        (replicate (length keys) false))

  -- A key without a vdisk panics.
  unfoldable pub exist : Virtual → List BobKey → Option (Result (List Bool))
  unfolding exist_for
  exist m keys =
      if all (λ key. is_some (get_target_nodes_for_key m key)) keys
      then exist_for m (λ key. Option.get_or (get_target_nodes_for_key m key) []) keys
      else none
