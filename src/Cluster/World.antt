-- ===== src/Cluster/World.antt =====
-- What bob/src/cluster meets: the other nodes through their gRPC clients, and the backend of the
-- local node. An `Environment` answers each call, and may look at all that happened before; the
-- history of calls and answers is part of the state, newest first. A call to a node without a
-- connection is a call whose answer is an error.
use bob.Prelude.{Bool, List, ℕ, ◌∷◌}
use bob.Error.{Result}
use bob.Data.{BobKey, BobData}
use bob.Node.{Node}
use bob.Options.{BobPutOptions}
use bob.Backend.Storage.{Operation}
use bob.Mapper.{Virtual}
use bob.Act.{Act}

-- A spawned put: its node, and how many replicas of the key lie there.
pub record Task : Type 0 where
  pub node : Node
  pub affected_replicas : ℕ

-- What `join` gives for a spawned task: its result, or an error of the runtime.
pub data Joined : Type 0 where
  joined : Result (Unit {0}) → Joined
  lost : Joined

pub data Event : Type 0 where
  -- A spawned put to a target node completes.
  remote_put : Task → BobKey → BobData → BobPutOptions → Joined → Event
  -- A put to a support node.
  support_put : Node → BobKey → BobData → BobPutOptions → Result (Unit {0}) → Event
  -- A put to the backend of this node.
  local_put : Operation → BobKey → BobData → Result (Unit {0}) → Event

abbrev pub History : Type 0
History = List Event

-- The shared offset of the mapper is part of the state.
pub record World : Type 0 where
  pub history : History
  pub mapper : Virtual

pub record Environment : Type 0 where
  pub on_remote_put : History → Task → BobKey → BobData → BobPutOptions → Joined
  pub on_support_put : History → Node → BobKey → BobData → BobPutOptions → Result (Unit {0})
  pub on_local_put : History → Operation → BobKey → BobData → Result (Unit {0})
  -- The order in which spawned tasks complete.
  pub completion : History → List Task → List Task
  -- The build, and whether debug messages are formatted.
  pub debug_assertions : Bool
  pub overflow_checks : Bool
  pub debug_logging : Bool

module _ (env : Environment) where
  unfoldable pub await_task : Task → BobKey → BobData → BobPutOptions → Act World Joined
  await_task t key d options w =
      let answer = env.on_remote_put w.history t key d options in
      (answer, record w { history = remote_put t key d options answer ∷ w.history })

  unfoldable pub call_put : Node → BobKey → BobData → BobPutOptions → Act World (Result (Unit {0}))
  call_put node key d options w =
      let answer = env.on_support_put w.history node key d options in
      (answer, record w { history = support_put node key d options answer ∷ w.history })

  unfoldable pub backend_put : Operation → BobKey → BobData → Act World (Result (Unit {0}))
  backend_put op key d w =
      let answer = env.on_local_put w.history op key d in
      (answer, record w { history = local_put op key d answer ∷ w.history })
