-- ===== src/Cluster/Delete/Total.antt =====
-- `delete` does not panic for a key with a vdisk (bob/src/cluster/quorum.rs).
use bob.Prelude.{
  Bool, List, Option, String, [], arith, eq_iff, false, filter, if◌then◌else◌, inl, inr, length,
  length-append, length-map, map, none, not, refl, some, subst, sym, true, ℕ, ◌++◌, ◌+◌, ◌==◌, ◌∙◌,
  ◌∷◌, ◌≡◌, ◌≤◌, ◌⊎◌,
}
use bob.Error.{Result, ok, err}
use bob.Data.{BobKey}
use bob.Node.{Node, DiskPath, VDisk}
use bob.Options.{delete_local_options}
use bob.Mapper.{local_disk_paths, vdisk_id_from_key}
use bob.Mapper.Aliens.{get_support_nodes-total}
use bob.Cluster.World.{Joined, joined, lost}
use bob.Cluster.Put.{finished}
use bob.Cluster.Targets.{Routes, local_count, targets_bound}
use bob.Cluster.Delete.{
  Request, History, World, Environment, RemoteDeleteError, contains_name, with_result, set_insert,
  set_extend, call_node_delete, backend_delete, finish_all_handles, delete_on_remote_nodes,
  delete_local_paths, delete_at_remote_nodes, delete_aliens_from, delete_aliens, delete_on_nodes,
  delete, paths_of, new_local,
}
use bob.Cluster.Delete.Replies.{delete-routed}

module _ (env : Environment) where
  finish_all_handles-mapper :
      (requests : List Request) (w : World)
      → (finish_all_handles env requests w).1.mapper ≡ w.mapper
  unfolding finish_all_handles call_node_delete
  finish_all_handles-mapper [] w = refl
  finish_all_handles-mapper ((n, o) ∷ requests) w =
      finish_all_handles-mapper requests (call_node_delete env (n, o) w).1

  delete_on_remote_nodes-mapper :
      (requests : List Request) (w : World)
      → (delete_on_remote_nodes env requests w).1.mapper ≡ w.mapper
  unfolding delete_on_remote_nodes
  delete_on_remote_nodes-mapper [] w = refl
  delete_on_remote_nodes-mapper (r ∷ requests) w =
      finish_all_handles-mapper (env.completion w.history (r ∷ requests)) w

  delete_local_paths-mapper :
      (local_node : String) (vdisk : ℕ) (paths : List DiskPath) (failed : List String) (w : World)
      → (delete_local_paths env local_node vdisk paths failed w).1.mapper ≡ w.mapper
  unfolding delete_local_paths backend_delete
  delete_local_paths-mapper local_node vdisk [] failed w = refl
  delete_local_paths-mapper local_node vdisk (path ∷ paths) failed w =
      delete_local_paths-mapper local_node vdisk paths _
        (backend_delete env (new_local vdisk path) true w).1

  delete_aliens-total :
      (key : BobKey) (vdisk : ℕ) (targets : List Node) (v : VDisk) (failed : List String)
      (w : World)
      → Routes key v w.mapper
      → (env.debug_assertions ≡ true → length failed ≤ length w.mapper.nodes)
      → (r : Result (Unit {0})) × ((delete_aliens env key vdisk targets failed w).0 ≡ finished r)
  unfolding delete_aliens delete_aliens_from
  delete_aliens-total key vdisk targets v [] w r b = (_, refl)
  delete_aliens-total key vdisk targets v (f ∷ fs) w r b =
      let (sup, m, g, l) =
        get_support_nodes-total env.debug_assertions w.mapper key v (length (f ∷ fs)) r.routed
          r.found r.routed_vdisk (omega arith) b in
      rw (g, delete_aliens_from) (_, refl)

  -- At most the name of this node is in the set after its disks.
  delete_local_paths-local :
      (local_node : String) (vdisk : ℕ) (paths : List DiskPath) (failed : List String) (w : World)
      → (failed ≡ []) ⊎ (failed ≡ local_node ∷ [])
      → let result = (delete_local_paths env local_node vdisk paths failed w).0 in
        (result ≡ []) ⊎ (result ≡ local_node ∷ [])
  unfolding delete_local_paths backend_delete set_insert
  delete_local_paths-local local_node vdisk [] failed w h = h
  delete_local_paths-local local_node vdisk (path ∷ paths) failed w h =
      delete_local_paths-local local_node vdisk paths _
        (backend_delete env (new_local vdisk path) true w).1
        (inserted (backend_delete env (new_local vdisk path) true w).0)
    where
      inserted :
          (r : Result ℕ)
          → let failed' : List String = elim r [
            | ok c ↦ failed
            | err e ↦ set_insert failed local_node
          ] in
            (failed' ≡ []) ⊎ (failed' ≡ local_node ∷ [])
      inserted (ok c) = h
      inserted (err e) = elim h [
        | inl z ↦ rw z (inr refl)
        | inr z ↦ rw (z, (eq_iff local_node local_node).1 refl) (inr refl)
      ]

  delete_local_paths-count :
      (local_node : String) (vdisk : ℕ) (paths : Option (List DiskPath)) (w : World)
      → length (delete_local_paths env local_node vdisk (paths_of env paths) [] w).0
        ≤ local_count paths
  unfolding delete_local_paths
  delete_local_paths-count local_node vdisk none w = omega arith
  delete_local_paths-count local_node vdisk (some paths) w =
      elim (delete_local_paths-local local_node vdisk paths [] w (inl refl)) [
        | inl z ↦ rw z (omega arith)
        | inr z ↦ rw z (omega arith)
      ]

  finish_all_handles-count :
      (requests : List Request) (w : World)
      → length (finish_all_handles env requests w).0 ≤ length requests
  unfolding finish_all_handles with_result
  finish_all_handles-count [] w = omega arith
  finish_all_handles-count ((n, o) ∷ requests) w =
      let (answer, w1) = call_node_delete env (n, o) w in
      omega (
        arith,
        added answer (finish_all_handles env requests w1).0,
        finish_all_handles-count requests w1,
      )
    where
      added :
          (answer : Joined) (errors : List RemoteDeleteError)
          → length (with_result (n, o) answer errors) ≤ length errors + 1
      added (joined (ok u)) errors = omega arith
      added (joined (err e)) errors = omega arith
      added lost errors = omega arith

  set_extend-count :
      (names xs : List String) → length (set_extend names xs) ≤ length names + length xs
  unfolding set_extend set_insert
  set_extend-count names [] = omega arith
  set_extend-count names (x ∷ xs) =
      omega (arith, set_extend-count (set_insert names x) xs, grown (contains_name names x))
    where
      grown : (b : Bool) → length (if b then names else names ++ x ∷ []) ≤ length names + 1
      grown true = omega arith
      grown false = rw length-append (omega arith)

  delete_at_remote_nodes-count :
      (local_node : String) (targets : List Node) (w : World)
      → ((h : History) (rs : List Request) → length (env.completion h rs) ≤ length rs)
      → length (delete_at_remote_nodes env local_node targets w).0
        ≤ length (filter (λ n. not (n.name == local_node)) targets)
  unfolding delete_at_remote_nodes delete_on_remote_nodes
  delete_at_remote_nodes-count local_node targets w c =
      asked (filter (λ n. not (n.name == local_node)) targets)
    where
      asked :
          (ns : List Node)
          → length (delete_on_remote_nodes env (map (λ n. (n, delete_local_options)) ns) w).0
            ≤ length ns
      asked [] = omega arith
      asked (n ∷ ns) =
          let requests : List Request = map (λ (n : Node). (n, delete_local_options)) (n ∷ ns) in
          omega (
            arith,
            finish_all_handles-count (env.completion w.history requests) w,
            c w.history requests,
            length-map {B = Request} (λ (x : Node). (x, delete_local_options)) (n ∷ ns),
          )

  -- For a key that the mapper routes to the vdisk `v`, and spawned calls of which each completes at
  -- most once, `delete` replies success or an error, whatever the other nodes and the backend
  -- answer: it does not panic.
  pub delete-no_panic :
      (key : BobKey) (v : VDisk) (w : World)
      → Routes key v w.mapper
      → ((h : History) (rs : List Request) → length (env.completion h rs) ≤ length rs)
      → (r : Result (Unit {0})) × ((delete env key w).0 ≡ finished r)
  unfolding delete_on_nodes delete_at_remote_nodes
  delete-no_panic key v w i c =
      let local_node = w.mapper.local_node_name in
      let disks = local_disk_paths local_node v.replicas none in
      let paths = paths_of env disks in
      let (failed, w1) = delete_local_paths env local_node v.id paths [] w in
      let (errors, w2) = delete_at_remote_nodes env local_node v.nodes w1 in
      let same : w2.mapper ≡ w.mapper =
        delete_on_remote_nodes-mapper _ w1 ∙ delete_local_paths-mapper local_node v.id paths [] w in
      let names = map (λ x. x.node_name) errors in
      let (r, f) =
        delete_aliens-total key (vdisk_id_from_key w.mapper key) v.nodes v (set_extend failed names)
          w2 (subst (Routes key v) (sym same) i)
          (λ t. rw same (
            omega (
              arith,
              set_extend-count failed names,
              length-map (λ (x : RemoteDeleteError). x.node_name) errors,
              delete_local_paths-count local_node v.id disks w,
              delete_at_remote_nodes-count local_node v.nodes w1 c,
              targets_bound local_node w.mapper.nodes v i.routed_vdisk,
            ))) in
      (r, rw (delete-routed env key v w i.found) f)
