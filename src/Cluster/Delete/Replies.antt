-- ===== src/Cluster/Delete/Replies.antt =====
-- The replies of `delete` (bob/src/cluster/quorum.rs).
use bob.Prelude.{
  List, Member, Member-filtered, Member-map, Option, String, [], arith, eq_iff, filter, inl, inr,
  map, none, not, refl, some, subst, sym, true, ℕ, ◌==◌, ◌∷◌, ◌≡◌, ◌≢◌, ◌⊎◌,
}
use bob.Error.{Result, ok, err}
use bob.Data.{BobKey}
use bob.Node.{Node, DiskPath, VDisk}
use bob.Options.{delete_local_options}
use bob.Backend.Storage.{new_local}
use bob.Mapper.{
  Virtual, get_operation, get_target_nodes_for_key, get_vdisk_for_key, local_disk_paths,
  vdisk_id_from_key,
}
use bob.Cluster.Put.{finished}
use bob.Cluster.Delete.{
  local_delete, History, World, Environment, set_insert, set_extend, backend_delete,
  delete_local_paths, delete_at_remote_nodes, delete_aliens, delete_on_nodes, delete_routed, delete,
  paths_of,
}
use bob.Cluster.Delete.Calls.{
  Later, Answered, Answered-Later, Completes, delete_on_remote_nodes-lem,
}
use bob.Cluster.Delete.Forced.{set_insert-Member, set_extend-Member, Forced, delete_aliens-lem}

module _ (env : Environment) where
  -- A forced delete on a disk of this node succeeded.
  abbrev pub Deleted : ℕ → DiskPath → History → Type 0
  Deleted vdisk path h = (c : ℕ) × Member (local_delete (new_local vdisk path) true (ok c)) h

  by_disk :
      (local_node : String) (vdisk : ℕ) (path : DiskPath) (r : Result ℕ) (failed : List String)
      (h : History)
      → Member (local_delete (new_local vdisk path) true r) h
      → Deleted vdisk path h
        ⊎ Member local_node (elim r [ ok c ↦ failed | err e ↦ set_insert failed local_node ])
  by_disk local_node vdisk path (ok c) failed h m = inl (c, m)
  by_disk local_node vdisk path (err e) failed h m = inr (set_insert-Member failed local_node).0

  still_failed :
      (local_node : String) (r : Result ℕ) (failed : List String) (x : String)
      → Member x failed
      → Member x (elim r [ ok c ↦ failed | err e ↦ set_insert failed local_node ])
  still_failed local_node (ok c) failed x m = m
  still_failed local_node (err e) failed x m = (set_insert-Member failed local_node).1 x m

  delete_local_paths-lem :
      (local_node : String) (vdisk : ℕ) (paths : List DiskPath) (failed : List String) (w : World)
      → let (after, w') = delete_local_paths env local_node vdisk paths failed w in
        Later w w'
        × ((x : String) → Member x failed → Member x after)
        × ((p : DiskPath) → Member p paths → Deleted vdisk p w'.history ⊎ Member local_node after)
  unfolding delete_local_paths backend_delete
  delete_local_paths-lem local_node vdisk [] failed w = (λ e m. m, λ x m. m, λ p m. absurd m)
  delete_local_paths-lem local_node vdisk (path ∷ paths) failed w =
      let (r, w1) = backend_delete env (new_local vdisk path) true w in
      let failed1 : List String = elim r [ ok c ↦ failed | err e ↦ set_insert failed local_node ] in
      let (after, w2) = delete_local_paths env local_node vdisk paths failed1 w1 in
      let (g, k, h) = delete_local_paths-lem local_node vdisk paths failed1 w1 in
      (
        λ e m. g e (inr m),
        λ x m. k x (still_failed local_node r failed x m),
        λ p m. elim m [
          | inl e ↦ elim (by_disk local_node vdisk path r failed w2.history (g _ (inl refl))) [
            | inl d ↦ inl (subst (λ q. Deleted vdisk q w2.history) (sym e) d)
            | inr f ↦ inr (k local_node f)
          ]
          | inr n ↦ h p n
        ],
      )

  delete_at_remote_nodes-lem :
      (local_node : String) (targets : List Node) (w : World)
      → Completes env
      → let (errors, w') = delete_at_remote_nodes env local_node targets w in
        Later w w'
        × ((n : Node)
            → Member n targets
            → n.name ≢ local_node
            → Answered n delete_local_options w'.history
              ⊎ Member n.name (map (λ e. e.node_name) errors))
  unfolding delete_at_remote_nodes
  delete_at_remote_nodes-lem local_node targets w c =
      let others = filter (λ n. not (n.name == local_node)) targets in
      let (g, h) =
        delete_on_remote_nodes-lem env (map (λ n. (n, delete_local_options)) others) w c in
      (
        g,
        λ n m f.
            let k : Member n others =
              Member-filtered _ n targets m (ground (arith, eq_iff n.name local_node, f)) in
            elim (h (n, delete_local_options)
              (Member-map (λ (x : Node). (x, delete_local_options)) n others k)) [
                | inl a ↦ inl a
                | inr (p, q) ↦ inr p
              ],
      )

  -- With the target nodes: the deletes first, and the aliens of those that failed.
  delete_on_nodes-lem :
      (key : BobKey) (vdisk : ℕ) (paths : Option (List DiskPath)) (targets : List Node)
      (alien_vdisk : ℕ) (w : World)
      → Completes env
      → let (r, w') = delete_on_nodes env key vdisk paths targets alien_vdisk w in
        r ≡ finished (ok tt)
        → ((n : Node)
            → Member n targets
            → n.name ≢ w.mapper.local_node_name
            → Answered n delete_local_options w'.history ⊎ Forced alien_vdisk n.name w'.history)
          × ((p : DiskPath) (n : Node)
              → Member p (paths_of env paths)
              → Member n targets
              → n.name ≡ w.mapper.local_node_name
              → Deleted vdisk p w'.history ⊎ Forced alien_vdisk n.name w'.history)
  unfolding delete_on_nodes
  delete_on_nodes-lem key vdisk paths targets alien_vdisk w c e =
      let local_node = w.mapper.local_node_name in
      let (failed, w1) = delete_local_paths env local_node vdisk (paths_of env paths) [] w in
      let (g1, k1, h1) = delete_local_paths-lem local_node vdisk (paths_of env paths) [] w in
      let (errors, w2) = delete_at_remote_nodes env local_node targets w1 in
      let (g2, h2) = delete_at_remote_nodes-lem local_node targets w1 c in
      let names = map (λ x. x.node_name) errors in
      let (k3, h3) = set_extend-Member names failed in
      let (g4, h4) = delete_aliens-lem alien_vdisk env key targets (set_extend failed names) w2 c in
      (
        λ n m f. elim (h2 n m f) [
          | inl a ↦ inl (
              Answered-Later n delete_local_options w2
                (delete_aliens env key alien_vdisk targets (set_extend failed names) w2).1 g4 a)
          | inr b ↦ inr (h4 e n m (h3 n.name b))
        ],
        λ p n m a f. elim (h1 p m) [
          | inl (x, d) ↦ inl (x, g4 _ (g2 _ d))
          | inr b ↦
              inr (
                h4 e n a
                  (subst (λ y. Member y (set_extend failed names)) (sym f) (k3 local_node b)))
        ],
      )

  abbrev pub local_paths : Virtual → VDisk → Option (List DiskPath)
  local_paths m v = local_disk_paths m.local_node_name v.replicas none

  pub delete-routed :
      (key : BobKey) (v : VDisk) (w : World)
      → get_vdisk_for_key w.mapper key ≡ some v
      → delete env key w
        ≡ delete_on_nodes env key v.id
            (local_paths w.mapper v)
            v.nodes
            (vdisk_id_from_key w.mapper key)
            w
  unfolding delete delete_routed get_operation get_target_nodes_for_key
  delete-routed key v w e = rw (e, delete_routed) refl

  module _ (key : BobKey) (v : VDisk) (w : World) where
    -- For a key that the mapper has the vdisk `v` for, if each spawned call completes and `delete`
    -- replies success: the delete at each target node other than this one completes and is not
    -- answered with an error, or a forced delete of the node's aliens does so at a support node, or
    -- succeeds here.
    pub delete-failed_remotes :
        (n : Node)
        → get_vdisk_for_key w.mapper key ≡ some v
        → Completes env
        → (delete env key w).0 ≡ finished (ok tt)
        → Member n v.nodes
        → n.name ≢ w.mapper.local_node_name
        → Answered n delete_local_options (delete env key w).1.history
          ⊎ Forced (vdisk_id_from_key w.mapper key) n.name (delete env key w).1.history
    delete-failed_remotes n e c f m d =
        let r = delete-routed key v w e in
        rw r (
          (delete_on_nodes-lem key v.id (local_paths w.mapper v) v.nodes
              (vdisk_id_from_key w.mapper key) w c (rw r at f)).0
            n m d)

    -- For such a key, if each spawned call completes, `delete` replies success, and this node is
    -- the target node `n`: a forced delete on each of its disks with a replica succeeds, or a forced
    -- delete of the aliens of this node completes without an error at a support node, or succeeds
    -- here.
    pub delete-failed_disks :
        (n : Node) (p : DiskPath)
        → get_vdisk_for_key w.mapper key ≡ some v
        → Completes env
        → (delete env key w).0 ≡ finished (ok tt)
        → Member n v.nodes
        → n.name ≡ w.mapper.local_node_name
        → Member p (paths_of env (local_disk_paths w.mapper.local_node_name v.replicas none))
        → Deleted v.id p (delete env key w).1.history
          ⊎ Forced (vdisk_id_from_key w.mapper key) n.name (delete env key w).1.history
    delete-failed_disks n p e c f m d q =
        let r = delete-routed key v w e in
        rw r (
          (delete_on_nodes-lem key v.id (local_paths w.mapper v) v.nodes
              (vdisk_id_from_key w.mapper key) w c (rw r at f)).1
            p n q m d)
