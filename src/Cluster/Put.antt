-- ===== src/Cluster/Put.antt =====
-- `Quorum::put` of bob/src/cluster/quorum.rs, with its helpers of operations.rs. The two halves of
-- `join!` touch different parts of the world, and run one after the other here. A panic is an
-- outcome of its own. The background part that `put` spawns is handed out, and run by
-- `background_put`.
pub mod Aliens
pub mod Covering
pub mod Local
pub mod Durable
pub mod Replies
pub mod Attempts
pub mod Total
use bob.Prelude.{
  Bool, List, Option, String, [], drop, eqb, false, filter, if◌then◌else◌, leb, length, ltb, none,
  not, some, take, ℕ, ◌&&◌, ◌++◌, ◌+◌, ◌==◌, ◌∷◌,
}
use mathlib.Core.Option
use mathlib.Core.List.{zip}
use bob.Error.{Error, Result, ok, err, internal}
use bob.Data.{BobKey, BobData}
use bob.Node.{Node, DiskPath}
use bob.Options.{BobPutOptions, put_local_options, put_alien_options}
use bob.Act.{Act, pure, ◌>>=◌, ◌>>◌}
use bob.Backend.Storage.{Operation, new_alien, new_local, set_remote_node_name}
use bob.Mapper.{
  Virtual, get_operation, get_target_nodes_for_key, get_support_nodes, get_replicas_count_by_node,
  vdisk_id_from_key,
}
use bob.Cluster.World.{
  Task, Joined, joined, lost, World, Environment, await_task, call_put, backend_put,
}
use bob.Cluster.Tasks.{
  failed_names, ok_count, Outcome, RemotePutResponse, RemotePutError, process_result, put_at_least,
}

pub data Finished (A : Type 0) : Type 0 where
  finished : A → Finished A
  panicked : Finished A

-- What `put` leaves to a spawned task.
pub record Background : Type 0 where
  pub rest_tasks : List Task
  pub failed_nodes : List String

-- `zip`
abbrev pub pair_up : List Node → List String → List (Node × String)
pair_up [] names = []
pair_up (n ∷ ns) [] = []
pair_up (n ∷ ns) (name ∷ names) = (n, name) ∷ pair_up ns names

-- What is left to do in the background, if anything.
abbrev pub background_of : List Task → List String → Option Background
background_of [] [] = none
background_of [] (f ∷ fs) = some (record { rest_tasks = []; failed_nodes = f ∷ fs })
background_of (t ∷ ts) fs = some (record { rest_tasks = t ∷ ts; failed_nodes = fs })

module _ (env : Environment) (key : BobKey) (d : BobData) where
  -- The number of paths that took the data.
  unfoldable pub put_local_node_all : ℕ → List DiskPath → Act World ℕ
  put_local_node_all vdisk [] = pure 0
  put_local_node_all vdisk (path ∷ paths) = do
    r ← backend_put env (new_local vdisk path) key d
    successes ← put_local_node_all vdisk paths
    pure (elim r [ ok u ↦ successes + 1 | err e ↦ successes ])

  -- One support node after another; the targets whose alien was refused.
  unfoldable pub put_sup_nodes : List (Node × String) → Act World (List String)
  put_sup_nodes [] = pure []
  put_sup_nodes ((node, target) ∷ rest) = do
    r ← call_put env node key d (put_alien_options (target ∷ []))
    failed ← put_sup_nodes rest
    pure (elim r [ ok u ↦ failed | err e ↦ target ∷ failed ])

  -- One local alien after another; the nodes whose alien failed.
  unfoldable pub put_local_all : ℕ → List String → Act World (List String)
  put_local_all vdisk [] = pure []
  put_local_all vdisk (name ∷ names) = do
    r ← backend_put env (set_remote_node_name (new_alien vdisk) name) key d
    failed ← put_local_all vdisk names
    pure (elim r [ ok u ↦ failed | err e ↦ name ∷ failed ])

  -- With the support nodes selected.
  unfoldable pub put_aliens_on : ℕ → List Node → List String → Act World (Result (Unit {0}))
  unfolding put_sup_nodes put_local_all
  put_aliens_on vdisk sup failed_nodes = do
    refused ← put_sup_nodes (pair_up sup (take (length sup) failed_nodes))
    failed ← put_local_all vdisk (drop (length sup) failed_nodes ++ refused)
    pure (elim failed [ [] ↦ ok tt | _ ∷ _ ↦ err internal ])

  -- `drain(..n)` panics where there are fewer than `n` nodes.
  unfoldable pub put_aliens_from :
      ℕ → List String → Option (List Node × Virtual) → Act World (Finished (Result (Unit {0})))
  unfolding put_aliens_on
  put_aliens_from vdisk failed none w = (panicked, w)
  put_aliens_from vdisk failed (some (sup, m)) w =
      if leb (length sup) (length failed)
      then (let (r, w') = put_aliens_on vdisk sup failed (record w { mapper = m }) in
          (finished r, w'))
      else (panicked, record w { mapper = m })

  unfoldable pub put_aliens : List String → Act World (Finished (Result (Unit {0})))
  unfolding put_aliens_from
  put_aliens [] w = (finished (err internal), w)
  put_aliens (f ∷ fs) w =
      put_aliens_from (vdisk_id_from_key w.mapper key) (f ∷ fs)
        (get_support_nodes env.debug_assertions w.mapper key (length (f ∷ fs))) w

  -- The rest of the spawned puts, and the aliens of those that failed.
  unfoldable pub background_tasks : List Task → Outcome → Act World Outcome
  unfolding process_result
  background_tasks [] o = pure o
  background_tasks (t ∷ ts) o = do
    answer ← await_task env t key d put_local_options
    background_tasks ts (process_result t answer o)

  -- `if !failed_nodes.is_empty()`
  unfoldable pub put_aliens_if_any : List String → Act World (Finished (Result (Unit {0})))
  unfolding put_aliens
  put_aliens_if_any [] = pure (finished (ok tt))
  put_aliens_if_any (f ∷ fs) = put_aliens (f ∷ fs)

  unfoldable pub background_put : Background → Act World (Finished (Result (Unit {0})))
  unfolding background_tasks put_aliens_if_any
  background_put b = do
    o ← background_tasks b.rest_tasks (record { tasks = []; oks = []; errors = [] })
    put_aliens_if_any (b.failed_nodes ++ failed_names o.errors)

  -- The decision on the counted replicas; it is asserted that no task is left without a quorum.
  unfoldable pub without_quorum :
      List Task → List String → Act World (Finished (Result (Unit {0})) × Option Background)
  unfolding put_aliens
  without_quorum (t ∷ ts) failed_nodes = pure (panicked, none)
  without_quorum [] failed_nodes = do r ← put_aliens failed_nodes; pure (r, none)

  unfoldable pub decide :
      ℕ → Outcome → ℕ → List String → Act World (Finished (Result (Unit {0})) × Option Background)
  unfolding without_quorum
  decide quorum o local_put_ok failed_nodes =
      if leb quorum (ok_count o.oks + local_put_ok)
      then pure (finished (ok tt), background_of o.tasks failed_nodes)
      else without_quorum o.tasks failed_nodes

  -- The local half of the `join!`, for the disks of this node that have a replica.
  unfoldable pub local_puts : ℕ → Option (List DiskPath) → Act World ℕ
  unfolding put_local_node_all
  local_puts vdisk (some paths) = put_local_node_all vdisk paths
  local_puts vdisk none = pure 0

  unfoldable pub local_failed : Option (List DiskPath) → ℕ → String → List String
  local_failed (some paths) local_put_ok name =
      if eqb local_put_ok (length paths) then [] else name ∷ []
  local_failed none local_put_ok name = []

  -- `at_least - paths_len` in a debug message underflows where this node has more replicas.
  unfoldable pub message_panics : ℕ → Option (List DiskPath) → Bool
  message_panics at_least none = false
  message_panics at_least (some paths) =
      env.overflow_checks && env.debug_logging && ltb at_least (length paths)

  -- The puts, with the operation and the target nodes of the key.
  unfoldable pub put_replicas :
      ℕ
      → ℕ
      → Option (List DiskPath)
      → List Node
      → List (String × ℕ)
      → String
      → Act World (Finished (Result (Unit {0})) × Option Background)
  unfolding local_puts local_failed decide put_at_least
  put_replicas quorum vdisk paths targets affected local_name = do
    o ←
        put_at_least env key d (filter (λ n. not (n.name == local_name)) targets) quorum
          put_local_options affected
    local_put_ok ← local_puts vdisk paths
    decide quorum o local_put_ok
        (local_failed paths local_put_ok local_name ++ failed_names o.errors)

  unfoldable pub put_to :
      ℕ
      → ℕ
      → Option (List DiskPath)
      → List Node
      → List (String × ℕ)
      → String
      → Act World (Finished (Result (Unit {0})) × Option Background)
  unfolding put_replicas message_panics
  put_to quorum vdisk paths targets affected local_name w =
      if message_panics quorum paths
      then ((panicked, none), w)
      else put_replicas quorum vdisk paths targets affected local_name w

  unfoldable pub put_routed :
      ℕ
      → Option (ℕ × Option (List DiskPath))
      → Option (List Node)
      → Act World (Finished (Result (Unit {0})) × Option Background)
  unfolding put_to
  put_routed quorum (some (vdisk, paths)) (some targets) w =
      put_to quorum vdisk paths targets (get_replicas_count_by_node w.mapper key)
        w.mapper.local_node_name w
  put_routed quorum (some operation) none w = ((panicked, none), w)
  put_routed quorum none targets w = ((panicked, none), w)

  unfoldable pub put : ℕ → Act World (Finished (Result (Unit {0})) × Option Background)
  unfolding put_routed
  put quorum w =
      put_routed quorum (get_operation w.mapper key) (get_target_nodes_for_key w.mapper key) w
