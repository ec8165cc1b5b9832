-- ===== src/Cluster/Tasks.antt =====
-- Waiting for spawned puts: bob/src/cluster/operations.rs.
pub mod Waiting
use bob.Prelude.{List, Option, String, [], if◌then◌else◌, ltb, map, ℕ, ◌++◌, ◌+◌, ◌∷◌}
use bob.Error.{Error, Result, ok, err}
use bob.Data.{BobKey, BobData}
use bob.Node.{Node}
use bob.Map.{get, string_eq}
use bob.Options.{BobPutOptions}
use bob.Act.{Act, pure, ◌>>=◌, ◌>>◌}
use bob.Cluster.World.{Task, Joined, joined, lost, World, Environment, await_task}
use mathlib.Core.Option

-- With the name of the node, which `NodeOutput` carries.
pub record RemotePutResponse : Type 0 where
  pub node_name : String
  pub affected_replicas : ℕ

pub record RemotePutError : Type 0 where
  pub node_name : String
  pub affected_replicas : ℕ
  pub error : Error

-- The tasks that were not awaited, and the results of the others.
pub record Outcome : Type 0 where
  pub tasks : List Task
  pub oks : List RemotePutResponse
  pub errors : List RemotePutError

-- The nodes of the errors, and the replicas that the successes count for.
abbrev pub failed_names : List RemotePutError → List String
failed_names = map (λ e. e.node_name)

abbrev pub ok_count : List RemotePutResponse → ℕ
ok_count [] = 0
ok_count (r ∷ rs) = r.affected_replicas + ok_count rs

-- The task's result goes to `oks` or `errors`; an error of the runtime to neither.
unfoldable pub process_result : Task → Joined → Outcome → Outcome
process_result t (joined (ok u)) o = record o {
  oks = o.oks ++ record { node_name = t.node.name; affected_replicas = t.affected_replicas } ∷ [];
}
process_result t (joined (err e)) o = record o {
  errors =
      o.errors
      ++ record { node_name = t.node.name; affected_replicas = t.affected_replicas; error = e }
        ∷ [];
}
process_result t lost o = o

-- The number that `process_result` returns.
unfoldable pub affected_by : Task → Joined → ℕ
affected_by t (joined (ok u)) = t.affected_replicas
affected_by t (joined (err e)) = 0
affected_by t lost = 0

module _ (env : Environment) (key : BobKey) (d : BobData) (options : BobPutOptions)
    (at_least : ℕ) where
  -- `while ok_count < at_least`, over the tasks in the order of their completion.
  unfoldable pub finish_at_least_handles : ℕ → Outcome → List Task → Act World Outcome
  unfolding process_result affected_by
  finish_at_least_handles ok_count o [] = pure (record o { tasks = [] })
  finish_at_least_handles ok_count o (t ∷ ts) =
      if ltb ok_count at_least
      then (do
        answer ← await_task env t key d options
        finish_at_least_handles (ok_count + affected_by t answer) (process_result t answer o) ts)
      else pure (record o { tasks = t ∷ ts })

abbrev pub task_for : List (String × ℕ) → Node → Task
task_for affected n = record { node = n; affected_replicas = Option.get_or (get affected n.name) 1 }

-- All the puts are spawned at once, and complete in the order of the environment.
unfoldable pub put_at_least :
    Environment
    → BobKey
    → BobData
    → List Node
    → ℕ
    → BobPutOptions
    → List (String × ℕ)
    → Act World Outcome
unfolding finish_at_least_handles
put_at_least env key d nodes at_least options affected w =
    finish_at_least_handles env key d options at_least 0
      (record { tasks = []; oks = []; errors = [] })
      (env.completion w.history (map (task_for affected) nodes)) w
