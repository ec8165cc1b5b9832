-- ===== src/Cluster/Put/Replies.antt =====
-- The replies of `put`, and the end of its spawned part (bob/src/cluster/quorum.rs).
use bob.Prelude.{Member, String, none, some, ℕ, ◌+◌, ◌≡◌, ◌≤◌, ◌⊎◌}
use bob.Error.{Error, ok, err}
use bob.Data.{BobKey, BobData}
use bob.Node.{DiskPath, VDisk}
use bob.Options.{BobPutOptions}
use bob.Backend.Storage.{new_local}
use bob.Mapper.{get_vdisk_for_key, vdisk_id_from_key}
use bob.Cluster.World.{Task, joined, remote_put, local_put, World, Environment}
use bob.Cluster.Tasks.Waiting.{acks}
use bob.Cluster.Put.{finished, Background, put, background_put}
use bob.Cluster.Put.Aliens.{Covered}
use bob.Cluster.Put.Covering.{background_put-BackgroundPut}
use bob.Cluster.Put.Durable.{Handled, put-Replied}

module _ (env : Environment) (key : BobKey) (d : BobData) where
  -- If `put` replies success for a key that the mapper has a vdisk for, either the puts that
  -- succeeded during it, on other nodes and on the disks of this node, account for at least
  -- `quorum` replicas, or it leaves nothing to a spawned part and the data is kept as an alien of
  -- some node.
  pub put-quorum :
      (quorum : ℕ) (w : World) (v : VDisk)
      → get_vdisk_for_key w.mapper key ≡ some v
      → (put env key d quorum w).0.0 ≡ finished (ok tt)
      → (quorum + acks w.history ≤ acks (put env key d quorum w).1.history)
        ⊎ ((put env key d quorum w).0.1 ≡ none)
          × ((x : String) × Covered key d
                (vdisk_id_from_key w.mapper key)
                x
                (put env key d quorum w).1.history)
  put-quorum quorum w v e h = (put-Replied env key d quorum w v e).quorum_acked h

  -- If `put` replies success for a key that the mapper has a vdisk for, each put to another node
  -- that is answered with an error was so before, or the node has an alien, or it is one of the failed nodes that are left
  -- to the spawned part.
  pub put-failed_remotes :
      (quorum : ℕ) (w : World) (v : VDisk)
      → get_vdisk_for_key w.mapper key ≡ some v
      → (put env key d quorum w).0.0 ≡ finished (ok tt)
      → (t : Task) (k : BobKey) (c : BobData) (options : BobPutOptions) (e : Error)
      → Member (remote_put t k c options (joined (err e))) (put env key d quorum w).1.history
      → Member (remote_put t k c options (joined (err e))) w.history
        ⊎ Handled env key d
            (vdisk_id_from_key w.mapper key)
            t.node.name
            (put env key d quorum w).0.1
            (put env key d quorum w).1
  put-failed_remotes quorum w v e h = (put-Replied env key d quorum w v e).failed_remotes h

  -- If `put` replies success for such a key, each put to a disk of this node that is answered with
  -- an error was so before, or this node has an alien, or it is one of the failed nodes that are
  -- left to the spawned part.
  pub put-failed_locals :
      (quorum : ℕ) (w : World) (v : VDisk)
      → get_vdisk_for_key w.mapper key ≡ some v
      → (put env key d quorum w).0.0 ≡ finished (ok tt)
      → (id : ℕ) (path : DiskPath) (k : BobKey) (c : BobData) (e : Error)
      → Member (local_put (new_local id path) k c (err e)) (put env key d quorum w).1.history
      → Member (local_put (new_local id path) k c (err e)) w.history
        ⊎ Handled env key d
            (vdisk_id_from_key w.mapper key)
            w.mapper.local_node_name
            (put env key d quorum w).0.1
            (put env key d quorum w).1
  put-failed_locals quorum w v e h = (put-Replied env key d quorum w v e).failed_locals h

  -- If the spawned part succeeds, each node that it was given as failed has an
  -- alien of the data.
  pub background_put-covers :
      (b : Background) (w : World)
      → (background_put env key d b w).0 ≡ finished (ok tt)
      → (x : String) → Member x b.failed_nodes
      → Covered key d (vdisk_id_from_key w.mapper key) x (background_put env key d b w).1.history
  background_put-covers b w h = (background_put-BackgroundPut env key d b w).covers h

  -- If the spawned part succeeds, each put to another node that is answered with an
  -- error was so before, or the node has an alien of the data.
  pub background_put-covers_new :
      (b : Background) (w : World)
      → (background_put env key d b w).0 ≡ finished (ok tt)
      → (t : Task) (k : BobKey) (c : BobData) (options : BobPutOptions) (e : Error)
      → Member (remote_put t k c options (joined (err e))) (background_put env key d b w).1.history
      → Member (remote_put t k c options (joined (err e))) w.history
        ⊎ Covered key d
            (vdisk_id_from_key w.mapper key)
            t.node.name
            (background_put env key d b w).1.history
  background_put-covers_new b w h = (background_put-BackgroundPut env key d b w).covers_new h
