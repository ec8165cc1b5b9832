-- ===== src/Cluster/Get.antt =====
-- `Quorum::get` of bob/src/cluster/quorum.rs, with the lookups of operations.rs. Nothing is changed
-- by a `get`, and it asks each disk and each node at most once in each role, so that the answers
-- are functions: of the backend here, of the nodes through their clients, and the order in which
-- concurrent calls complete. A call to a node without a connection is answered by an error.
pub mod Sources
pub mod Replies
use bob.Prelude.{List, Option, String, [], filter, none, not, some, ℕ, ◌==◌, ◌∷◌}
use bob.Error.{Result, ok, err, key_not_found}
use bob.Data.{BobKey, BobData}
use bob.Node.{Node, DiskPath}
use bob.Options.{BobGetOptions, get_local_options, get_alien_options}
use bob.Backend.Storage.{Operation, new_local, new_alien}
use bob.Mapper.{Virtual, get_operation, get_target_nodes_for_key}

pub record Answers : Type 0 where
  pub on_local : Operation → Result BobData
  pub on_remote : Node → BobGetOptions → Result BobData
  pub completion : List Node → List Node

-- `Result::ok`
abbrev pub to_option : Result BobData → Option BobData
to_option (ok d) = some d
to_option (err e) = none

abbrev pub or_else : Option BobData → Option BobData → Option BobData
or_else (some d) next = some d
or_else none next = next

-- The first data that the function finds: a loop with an early return.
unfoldable pub find_map : {A : Type 0} → (A → Option BobData) → List A → Option BobData
find_map f [] = none
find_map f (x ∷ xs) = or_else (f x) (find_map f xs)

module _ (answers : Answers) where
  unfoldable pub lookup_local_node : ℕ → DiskPath → Option BobData
  lookup_local_node vdisk path = to_option (answers.on_local (new_local vdisk path))

  unfoldable pub lookup_local_alien : ℕ → Option BobData
  lookup_local_alien vdisk = to_option (answers.on_local (new_alien vdisk))

  -- The first success among the completed calls.
  unfoldable pub get_any : List Node → BobGetOptions → Option BobData
  unfolding find_map
  get_any nodes options =
      find_map (λ n. to_option (answers.on_remote n options)) (answers.completion nodes)

  unfoldable pub lookup_remote_nodes : String → List Node → Option BobData
  unfolding get_any
  lookup_remote_nodes local targets =
      get_any (filter (λ n. not (n.name == local)) targets) get_local_options

  unfoldable pub lookup_remote_aliens : Virtual → Option BobData
  unfolding get_any
  lookup_remote_aliens m =
      get_any (filter (λ n. not (n.name == m.local_node_name)) m.nodes) get_alien_options

  abbrev pub or_not_found : BobKey → Option BobData → Result BobData
  or_not_found key (some d) = ok d
  or_not_found key none = err (key_not_found key)

  -- The four lookups, each where those before it found nothing.
  unfoldable pub lookups : Virtual → ℕ → List DiskPath → List Node → Option BobData
  unfolding lookup_local_node lookup_remote_nodes lookup_local_alien lookup_remote_aliens
  lookups m vdisk paths targets = or_else (find_map (lookup_local_node vdisk) paths) (
      or_else (lookup_remote_nodes m.local_node_name targets)
        (or_else (lookup_local_alien vdisk) (lookup_remote_aliens m)))

  -- A key without a vdisk panics.
  unfoldable pub get_routed :
      Virtual
      → BobKey
      → Option (ℕ × Option (List DiskPath))
      → Option (List Node)
      → Option (Result BobData)
  unfolding lookups
  get_routed m key (some (vdisk, some paths)) (some targets) =
      some (or_not_found key (lookups m vdisk paths targets))
  get_routed m key (some (vdisk, none)) (some targets) =
      some (or_not_found key (lookups m vdisk [] targets))
  get_routed m key (some operation) none = none
  get_routed m key none targets = none

  unfoldable pub get : Virtual → BobKey → Option (Result BobData)
  unfolding get_routed
  get m key = get_routed m key (get_operation m key) (get_target_nodes_for_key m key)
