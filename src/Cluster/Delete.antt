-- ===== src/Cluster/Delete.antt =====
-- `Quorum::delete` of bob/src/cluster/quorum.rs, with the calls of operations.rs and the helpers of
-- support_types.rs. An `Environment` answers each call for the key, and may look at all the calls
-- before; the history, newest first, is part of the state. A set of names is a list without
-- repeats, whose order stands for the order in which a `HashSet` is walked.
pub mod Calls
pub mod Forced
pub mod Replies
pub mod Total
use bob.Prelude.{
  Bool, List, Option, String, [], any, drop, eqb, false, filter, if◌then◌else◌, leb, length, map,
  none, not, some, take, true, ℕ, ◌&&◌, ◌++◌, ◌==◌, ◌∷◌,
}
use bob.Error.{Error, Result, ok, err, internal}
use bob.Data.{BobKey}
use bob.Node.{Node, DiskPath}
use bob.Options.{BobDeleteOptions, delete_local_options, delete_alien_options}
use bob.Act.{Act, pure, ◌>>=◌, ◌>>◌}
use bob.Backend.Storage.{Operation, new_alien, new_local, set_remote_node_name}
use bob.Mapper.{
  Virtual, get_operation, get_target_nodes_for_key, get_support_nodes, vdisk_id_from_key,
}
use bob.Cluster.World.{Joined, joined, lost}
use bob.Cluster.Put.{Finished, finished, panicked, pair_up}

-- A node, and the options that it is sent.
abbrev pub Request : Type 0
Request = Node × BobDeleteOptions

pub data Event : Type 0 where
  -- A spawned call to another node completes.
  remote_delete : Node → BobDeleteOptions → Joined → Event
  -- A delete on the backend of this node, forced or not.
  local_delete : Operation → Bool → Result ℕ → Event

abbrev pub History : Type 0
History = List Event

pub record World : Type 0 where
  pub history : History
  pub mapper : Virtual

pub record Environment : Type 0 where
  pub on_remote_delete : History → Node → BobDeleteOptions → Joined
  pub on_local_delete : History → Operation → Bool → Result ℕ
  -- The order in which spawned calls complete.
  pub completion : History → List Request → List Request
  pub debug_assertions : Bool

pub record RemoteDeleteError : Type 0 where
  pub node_name : String
  pub force_alien_nodes : List String
  pub error : Error

abbrev pub contains_name : List String → String → Bool
contains_name names name = any (λ n. n == name) names

-- `HashSet::insert` and `extend`.
unfoldable pub set_insert : List String → String → List String
set_insert names name = if contains_name names name then names else names ++ name ∷ []

unfoldable pub set_extend : List String → List String → List String
unfolding set_insert
set_extend names [] = names
set_extend names (x ∷ xs) = set_extend (set_insert names x) xs

-- The names that are taken out of the set, and those that stay.
unfoldable pub drain_collect : List String → ℕ → List String × List String
drain_collect names count =
    if leb (length names) count
    then (names, [])
    else (if eqb count 0 then ([], names) else (take count names, drop count names))

-- The error of a call goes to the others; an error of the runtime is passed over.
unfoldable pub with_result : Request → Joined → List RemoteDeleteError → List RemoteDeleteError
with_result (node, options) (joined (ok u)) errors = errors
with_result (node, options) (joined (err e)) errors =
    record { node_name = node.name; force_alien_nodes = options.force_alien_nodes; error = e }
    ∷ errors
with_result (node, options) lost errors = errors

abbrev pub forced_names : List RemoteDeleteError → List String
forced_names [] = []
forced_names (e ∷ errors) = e.force_alien_nodes ++ forced_names errors

abbrev pub with_forced : Bool → Result ℕ → String → List String → List String
with_forced true (err e) name names = name ∷ names
with_forced true (ok c) name names = names
with_forced false r name names = names

-- A support node for each of the names, as far as both go.
abbrev pub support_queries : List (Node × String) → List Request
support_queries [] = []
support_queries ((node, name) ∷ pairs) =
    (node, delete_alien_options (name ∷ [])) ∷ support_queries pairs

module _ (env : Environment) where
  unfoldable pub call_node_delete : Request → Act World Joined
  call_node_delete (node, options) w =
      let answer = env.on_remote_delete w.history node options in
      (answer, record w { history = remote_delete node options answer ∷ w.history })

  unfoldable pub backend_delete : Operation → Bool → Act World (Result ℕ)
  backend_delete op force w =
      let answer = env.on_local_delete w.history op force in
      (answer, record w { history = local_delete op force answer ∷ w.history })

  -- The errors of the calls, in the order of their completion.
  unfoldable pub finish_all_handles : List Request → Act World (List RemoteDeleteError)
  unfolding with_result
  finish_all_handles [] = pure []
  finish_all_handles (request ∷ requests) = do
    answer ← call_node_delete request
    errors ← finish_all_handles requests
    pure (with_result request answer errors)

  unfoldable pub delete_on_remote_nodes : List Request → Act World (List RemoteDeleteError)
  unfolding finish_all_handles
  delete_on_remote_nodes [] w = ([], w)
  delete_on_remote_nodes (request ∷ requests) w =
      finish_all_handles (env.completion w.history (request ∷ requests)) w

  -- The loop over the disks of this node; the name of this node is inserted on an error.
  unfoldable pub delete_local_paths :
      String → ℕ → List DiskPath → List String → Act World (List String)
  unfolding set_insert
  delete_local_paths local_node vdisk [] failed = pure failed
  delete_local_paths local_node vdisk (path ∷ paths) failed = do
    r ← backend_delete (new_local vdisk path) true
    delete_local_paths local_node vdisk paths
        (elim r [ ok c ↦ failed | err e ↦ set_insert failed local_node ])

  -- The nodes whose forced delete failed.
  unfoldable pub delete_on_local_aliens : ℕ → List String → List Node → Act World (List String)
  delete_on_local_aliens vdisk force [] = pure []
  delete_on_local_aliens vdisk force (n ∷ nodes) = do
    r ← backend_delete (set_remote_node_name (new_alien vdisk) n.name) (contains_name force n.name)
    failed ← delete_on_local_aliens vdisk force nodes
    pure (with_forced (contains_name force n.name) r n.name failed)

  -- With the names drained: the calls to the support nodes, and the set after their errors.
  unfoldable pub delete_on_support : List Node → List String × List String → Act World (List String)
  unfolding delete_on_remote_nodes set_extend
  delete_on_support sup (names, rest) = do
    errors ← delete_on_remote_nodes (support_queries (pair_up sup names))
    pure (set_extend rest (forced_names errors))

  -- The rest, with the support nodes that were asked.
  unfoldable pub delete_elsewhere :
      ℕ → List Node → List Node → List String → Act World (Result (Unit {0}))
  unfolding delete_on_remote_nodes delete_on_local_aliens
  delete_elsewhere vdisk targets sup failed w =
      let others =
        filter
          (λ n.
            not (contains_name (map (λ s. s.name) sup) n.name)
            && not (n.name == w.mapper.local_node_name))
          w.mapper.nodes in
      let (errors, w1) =
        delete_on_remote_nodes (map (λ n. (n, delete_alien_options [])) others) w in
      let (fully_failed, w2) = delete_on_local_aliens vdisk failed targets w1 in
      (elim fully_failed [ [] ↦ ok tt | _ ∷ _ ↦ err internal ], w2)

  unfoldable pub delete_aliens_from :
      ℕ
      → List Node
      → List String
      → Option (List Node × Virtual)
      → Act World (Finished (Result (Unit {0})))
  unfolding delete_on_support delete_elsewhere drain_collect
  delete_aliens_from vdisk targets failed none w = (panicked, w)
  delete_aliens_from vdisk targets failed (some (sup, m)) w =
      let (rest, w1) =
        delete_on_support sup (drain_collect failed (length sup)) (record w { mapper = m }) in
      let (r, w2) = delete_elsewhere vdisk targets sup rest w1 in (finished r, w2)

  unfoldable pub delete_aliens :
      BobKey → ℕ → List Node → List String → Act World (Finished (Result (Unit {0})))
  unfolding delete_aliens_from delete_elsewhere
  delete_aliens key vdisk targets [] w =
      let (r, w1) = delete_elsewhere vdisk targets [] [] w in (finished r, w1)
  delete_aliens key vdisk targets (f ∷ fs) w =
      delete_aliens_from vdisk targets (f ∷ fs)
        (get_support_nodes env.debug_assertions w.mapper key (length (f ∷ fs))) w

  unfoldable pub delete_at_remote_nodes : String → List Node → Act World (List RemoteDeleteError)
  unfolding delete_on_remote_nodes
  delete_at_remote_nodes local_node targets =
      delete_on_remote_nodes
        (map (λ n. (n, delete_local_options)) (filter (λ n. not (n.name == local_node)) targets))

  abbrev pub paths_of : Option (List DiskPath) → List DiskPath
  paths_of none = []
  paths_of (some paths) = paths

  unfoldable pub delete_on_nodes :
      BobKey → ℕ → Option (List DiskPath) → List Node → ℕ → Act World (Finished (Result (Unit {0})))
  unfolding delete_aliens delete_local_paths delete_at_remote_nodes set_extend
  delete_on_nodes key vdisk paths targets alien_vdisk w =
      let local_node = w.mapper.local_node_name in
      let (failed, w1) = delete_local_paths local_node vdisk (paths_of paths) [] w in
      let (errors, w2) = delete_at_remote_nodes local_node targets w1 in
      delete_aliens key alien_vdisk targets (set_extend failed (map (λ e. e.node_name) errors)) w2

  -- A key without a vdisk panics.
  unfoldable pub delete_routed :
      BobKey
      → Option (ℕ × Option (List DiskPath))
      → Option (List Node)
      → Act World (Finished (Result (Unit {0})))
  unfolding delete_on_nodes
  delete_routed key (some (vdisk, paths)) (some targets) w =
      delete_on_nodes key vdisk paths targets (vdisk_id_from_key w.mapper key) w
  delete_routed key (some operation) none w = (panicked, w)
  delete_routed key none targets w = (panicked, w)

  unfoldable pub delete : BobKey → Act World (Finished (Result (Unit {0})))
  unfolding delete_routed
  delete key w =
      delete_routed key (get_operation w.mapper key) (get_target_nodes_for_key w.mapper key) w
