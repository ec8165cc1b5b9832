-- ===== src/Cluster/Put/Local.antt =====
-- The local half of `put` (bob/src/cluster/operations.rs, `put_local_node_all`).
use bob.Prelude.{
  List, Member, [], arith, inl, inr, length, refl, suc, ℕ, ◌+◌, ◌<◌, ◌∷◌, ◌≡◌, ◌≤◌, ◌⊎◌,
}
use bob.Error.{Error, Result, ok, err}
use bob.Data.{BobKey, BobData}
use bob.Node.{DiskPath}
use bob.Options.{BobPutOptions}
use bob.Backend.Storage.{new_local}
use bob.Cluster.World.{Task, Joined, remote_put, local_put, World, Environment, backend_put}
use bob.Cluster.Tasks.Waiting.{acks}
use bob.Cluster.Put.{put_local_node_all}

module _ (env : Environment) (key : BobKey) (d : BobData) (vdisk : ℕ) where
  -- What the puts to the local disks do to the world; `n` of `paths` succeed.
  pub record LocalPuts (paths n : ℕ) (w w' : World) : Type 0 where
    pub counted : acks w'.history ≡ acks w.history + n
    pub bound : n ≤ paths
    pub remotes :
        (t : Task) (k : BobKey) (c : BobData) (options : BobPutOptions) (a : Joined)
        → Member (remote_put t k c options a) w'.history
        → Member (remote_put t k c options a) w.history
    pub failed :
        (v : ℕ) (path : DiskPath) (k : BobKey) (c : BobData) (e : Error)
        → Member (local_put (new_local v path) k c (err e)) w'.history
        → Member (local_put (new_local v path) k c (err e)) w.history ⊎ (n < paths)
    pub same_mapper : w'.mapper ≡ w.mapper

  pub LocalPuts-none : (w : World) → LocalPuts 0 0 w w
  LocalPuts-none w = record {
    counted = omega arith;
    bound = omega arith;
    remotes = λ t k c o a m. m;
    failed = λ v p k c e m. inl m;
    same_mapper = refl;
  }

  abbrev with_result : DiskPath → Result (Unit {0}) → World → World
  with_result path r w = record w { history = local_put (new_local vdisk path) key d r ∷ w.history }

  LocalPuts-step :
      (path : DiskPath) (r : Result (Unit {0})) (n : ℕ) (paths : ℕ) (w w' : World)
      → LocalPuts paths n (with_result path r w) w'
      → LocalPuts (suc paths) (elim r [ ok u ↦ n + 1 | err e ↦ n ]) w w'
  LocalPuts-step path (ok u) n paths w w' g = record {
    counted = omega (arith, g.counted);
    bound = omega (arith, g.bound);
    remotes = λ t k c o a m. elim (g.remotes t k c o a m) [ inl f ↦ absurd (cc) | inr q ↦ q ];
    failed = λ v p k c e m. elim (g.failed v p k c e m) [
      | inl (inl f) ↦ absurd (cc)
      | inl (inr q) ↦ inl q
      | inr q ↦ inr (omega arith)
    ];
    same_mapper = g.same_mapper;
  }
  LocalPuts-step path (err e') n paths w w' g = record {
    counted = omega (arith, g.counted);
    bound = omega (arith, g.bound);
    remotes = λ t k c o a m. elim (g.remotes t k c o a m) [ inl f ↦ absurd (cc) | inr q ↦ q ];
    failed = λ v p k c e m. inr (omega (arith, g.bound));
    same_mapper = g.same_mapper;
  }

  pub put_local_node_all-LocalPuts :
      (paths : List DiskPath) (w : World)
      → let (n, w') = put_local_node_all env key d vdisk paths w in LocalPuts (length paths) n w w'
  unfolding put_local_node_all backend_put
  put_local_node_all-LocalPuts [] w = LocalPuts-none w
  put_local_node_all-LocalPuts (path ∷ paths) w =
      let r = env.on_local_put w.history (new_local vdisk path) key d in
      LocalPuts-step path r _ (length paths) w _
        (put_local_node_all-LocalPuts paths (with_result path r w))
