-- ===== src/Cluster/Put/Durable.antt =====
-- What a reply of `put` says of the replicas (bob/src/cluster/quorum.rs).
use bob.Prelude.{
  Bool-cases, List, Member, Member-append_left, Member-append_right, Option, String, [], ap, arith,
  dec_le, false, filter, gt→leb, inl, inr, length, le→leb, map, none, not, refl, some, subst, true,
  ℕ, ◌++◌, ◌+◌, ◌<◌, ◌==◌, ◌∙◌, ◌∷◌, ◌≡◌, ◌≤◌, ◌⊎◌,
}
use bob.Error.{Error, Result, ok, err}
use bob.Data.{BobKey, BobData}
use bob.Node.{Node, DiskPath, VDisk}
use bob.Options.{BobPutOptions, put_local_options}
use bob.Backend.Storage.{new_local}
use bob.Mapper.{
  local_disk_paths, Virtual, get_vdisk_for_key, get_target_nodes_for_key, get_operation,
  vdisk_id_from_key,
}
use bob.Cluster.World.{Task, Joined, joined, remote_put, local_put, World, Environment}
use bob.Cluster.Tasks.{
  Outcome, failed_names, ok_count, put_at_least, task_for, finish_at_least_handles,
}
use bob.Cluster.Tasks.Waiting.{acks, finish_at_least_handles-Grows, finish_at_least_handles-enough}
use bob.Cluster.Put.{
  Finished, finished, Background, background_of, without_quorum, decide, local_puts, local_failed,
  put_replicas, message_panics, put_to, put_routed, put,
}
use bob.Cluster.Put.Aliens.{Covered}
use bob.Cluster.Put.Covering.{put_aliens-PutAliens, put_aliens-some, alien_vdisk}
use bob.Cluster.Put.Local.{LocalPuts, LocalPuts-none, put_local_node_all-LocalPuts}

-- The failed nodes that `put` leaves to the spawned part.
abbrev pub handed : Option Background → List String
handed none = []
handed (some b) = b.failed_nodes

handed-background_of : (ts : List Task) (fs : List String) → handed (background_of ts fs) ≡ fs
handed-background_of [] [] = refl
handed-background_of [] (f ∷ fs) = refl
handed-background_of (t ∷ ts) fs = refl

module _ (env : Environment) (key : BobKey) (d : BobData) where
  -- A failed put is old, or its node has an alien, or it is left to the spawned part.
  abbrev pub Handled : ℕ → String → Option Background → World → Type 0
  Handled vdisk name b w' = Covered key d vdisk name w'.history ⊎ Member name (handed b)

  -- The decision, from the nodes that are known to have failed.
  record Decided (quorum vdisk acked : ℕ) (failed : List String) (w w' : World)
      (reply : Finished (Result (Unit {0})) × Option Background) : Type 0 where
    quorum_acked :
        reply.0 ≡ finished (ok tt)
        → (quorum ≤ acked) × (w' ≡ w)
          ⊎ (reply.1 ≡ none) × ((x : String) × Member x failed × Covered key d vdisk x w'.history)
    handled :
        reply.0 ≡ finished (ok tt) → (x : String) → Member x failed → Handled vdisk x reply.1 w'
    remotes :
        (t : Task) (k : BobKey) (c : BobData) (options : BobPutOptions) (a : Joined)
        → Member (remote_put t k c options a) w'.history
        → Member (remote_put t k c options a) w.history
    locals :
        (v : ℕ) (path : DiskPath) (k : BobKey) (c : BobData) (r : Result (Unit {0}))
        → Member (local_put (new_local v path) k c r) w'.history
        → Member (local_put (new_local v path) k c r) w.history

  decide-Decided :
      (quorum : ℕ) (o : Outcome) (local_put_ok : ℕ) (failed : List String) (w : World)
      → (o.tasks ≡ []) ⊎ (quorum ≤ ok_count o.oks)
      → let (reply, w') = decide env key d quorum o local_put_ok failed w in
        Decided quorum (alien_vdisk env key d w) (ok_count o.oks + local_put_ok) failed w w' reply
  unfolding decide without_quorum
  decide-Decided quorum o local_put_ok failed w q =
      elim (dec_le quorum (ok_count o.oks + local_put_ok)) [
        | yes p ↦ rw (le→leb _ _ p) (record {
          quorum_acked = λ h. inl (p, refl);
          handled = λ h x m. inr (rw (handed-background_of o.tasks failed) m);
          remotes = λ t k c options a m. m;
          locals = λ v path k c r m. m;
        })
        | no p ↦ elim q [
          | inr z ↦ absurd (omega arith)
          | inl z ↦
              let g = put_aliens-PutAliens env key d failed w in
              rw (gt→leb quorum (ok_count o.oks + local_put_ok) (omega arith), z)
                (record {
                  quorum_acked = λ h.
                      let (x, m) = put_aliens-some env key d failed w h in
                      inr (refl, (x, m, g.covers h x m));
                  handled = λ h x m. inl (g.covers h x m);
                  remotes = g.calls.remotes;
                  locals = g.calls.locals;
                })
        ]
      ]

  -- What a reply of `put` says.
  pub record Replied (quorum vdisk : ℕ) (local_name : String) (w w' : World)
      (reply : Finished (Result (Unit {0})) × Option Background) : Type 0 where
    pub quorum_acked :
        reply.0 ≡ finished (ok tt)
        → (quorum + acks w.history ≤ acks w'.history)
          ⊎ (reply.1 ≡ none) × ((x : String) × Covered key d vdisk x w'.history)
    pub failed_remotes :
        reply.0 ≡ finished (ok tt)
        → (t : Task) (k : BobKey) (c : BobData) (options : BobPutOptions) (e : Error)
        → Member (remote_put t k c options (joined (err e))) w'.history
        → Member (remote_put t k c options (joined (err e))) w.history
          ⊎ Handled vdisk t.node.name reply.1 w'
    pub failed_locals :
        reply.0 ≡ finished (ok tt)
        → (v : ℕ) (path : DiskPath) (k : BobKey) (c : BobData) (e : Error)
        → Member (local_put (new_local v path) k c (err e)) w'.history
        → Member (local_put (new_local v path) k c (err e)) w.history
          ⊎ Handled vdisk local_name reply.1 w'

  abbrev paths_of : Option (List DiskPath) → ℕ
  paths_of none = 0
  paths_of (some paths) = length paths

  pub local_puts-LocalPuts :
      (vdisk : ℕ) (paths : Option (List DiskPath)) (w : World)
      → let (n, w') = local_puts env key d vdisk paths w in
        LocalPuts env key d vdisk (paths_of paths) n w w'
  unfolding local_puts
  local_puts-LocalPuts vdisk none w = LocalPuts-none env key d vdisk w
  local_puts-LocalPuts vdisk (some paths) w = put_local_node_all-LocalPuts env key d vdisk paths w

  local_failed-Member :
      (paths : Option (List DiskPath)) (n : ℕ) (name : String)
      → n < paths_of paths
      → Member name (local_failed env key d paths n name)
  unfolding local_failed
  local_failed-Member none n name h = absurd (omega arith)
  local_failed-Member (some paths) n name h = ground arith

  -- The debug message does not underflow where it is not formatted, where overflow is not checked,
  -- and where this node has no more replicas than `quorum`.
  pub message_fits :
      (quorum : ℕ) (disks : Option (List DiskPath))
      → ((paths : List DiskPath)
          → disks ≡ some paths
          → env.overflow_checks ≡ true
          → env.debug_logging ≡ true
          → length paths ≤ quorum)
      → message_panics env key d quorum disks ≡ false
  unfolding message_panics
  message_fits quorum none h = refl
  message_fits quorum (some paths) h = ground (arith, h paths refl)

  put_replicas-Replied :
      (quorum vdisk : ℕ) (paths : Option (List DiskPath)) (targets : List Node)
      (affected : List (String × ℕ)) (local_name : String) (w : World)
      → let (reply, w') = put_replicas env key d quorum vdisk paths targets affected local_name w in
        Replied quorum (alien_vdisk env key d w) local_name w w' reply
  unfolding put_replicas put_at_least
  put_replicas-Replied quorum vdisk paths targets affected local_name w =
      let spawned =
        env.completion w.history
          (map (task_for affected) (filter (λ n. not (n.name == local_name)) targets)) in
      let empty : Outcome = record { tasks = []; oks = []; errors = [] } in
      let (o, w1) = finish_at_least_handles env key d put_local_options quorum 0 empty spawned w in
      let g = finish_at_least_handles-Grows env key d put_local_options quorum 0 empty spawned w in
      let enough =
        finish_at_least_handles-enough env key d put_local_options quorum 0 empty spawned w refl in
      let (n, w2) = local_puts env key d vdisk paths w1 in
      let l = local_puts-LocalPuts vdisk paths w1 in
      let names = local_failed env key d paths n local_name in
      let failed = names ++ failed_names o.errors in
      let (reply, w3) = decide env key d quorum o n failed w2 in
      let q =
        subst (λ v. Decided quorum v (ok_count o.oks + n) failed w2 w3 reply)
          (ap (λ m. vdisk_id_from_key m key) (l.same_mapper ∙ g.same_mapper))
          (decide-Decided quorum o n failed w2 enough) in
      record {
        quorum_acked = λ h. elim (q.quorum_acked h) [
          | inr (z, (x, m, c)) ↦ inr (z, (x, c))
          | inl (p, z) ↦ inl (rw z (omega (arith, g.counted, l.counted)))
        ];
        failed_remotes = λ h t k c options f m.
            elim (g.failed t k c options f
              (l.remotes t k c options _ (q.remotes t k c options _ m))) [
                | inl z ↦ inl z
                | inr z ↦ inr (
                    q.handled h t.node.name (Member-append_right _ names (failed_names o.errors) z))
              ];
        failed_locals = λ h v path k c f m. elim (l.failed v path k c f (q.locals v path k c _ m)) [
          | inl z ↦ inl (g.locals _ k c _ z)
          | inr z ↦ inr (
              q.handled h local_name (
                Member-append_left _ names (failed_names o.errors)
                  (local_failed-Member paths n local_name z)))
        ];
      }

  put_to-Replied :
      (quorum vdisk : ℕ) (paths : Option (List DiskPath)) (targets : List Node)
      (affected : List (String × ℕ)) (local_name : String) (w : World)
      → let (reply, w') = put_to env key d quorum vdisk paths targets affected local_name w in
        Replied quorum (alien_vdisk env key d w) local_name w w' reply
  unfolding put_to
  put_to-Replied quorum vdisk paths targets affected local_name w =
      elim (Bool-cases (message_panics env key d quorum paths)) [
        | inl e ↦
            rw (put_to, e)
              (record {
                quorum_acked = λ h. absurd (cc h);
                failed_remotes = λ h. absurd (cc h);
                failed_locals = λ h. absurd (cc h);
              })
        | inr e ↦
            rw (put_to, e) (put_replicas-Replied quorum vdisk paths targets affected local_name w)
      ]

  put_routed-Replied :
      (quorum : ℕ) (w : World) (v : VDisk) (paths : Option (List DiskPath))
      (operation : Option (ℕ × Option (List DiskPath))) (targets : Option (List Node))
      → operation ≡ some (v.id, paths)
      → targets ≡ some v.nodes
      → let (reply, w') = put_routed env key d quorum operation targets w in
        Replied quorum (alien_vdisk env key d w) w.mapper.local_node_name w w' reply
  unfolding put_routed
  put_routed-Replied quorum w v paths operation targets p q =
      rw (p, q, put_routed) (put_to-Replied quorum v.id paths v.nodes _ w.mapper.local_node_name w)

  pub routed_operation :
      (m : Virtual) (v : VDisk)
      → get_vdisk_for_key m key ≡ some v
      → get_operation m key ≡ some (v.id, local_disk_paths m.local_node_name v.replicas none)
  unfolding get_operation
  routed_operation m v e = rw e refl

  pub routed_targets :
      (m : Virtual) (v : VDisk)
      → get_vdisk_for_key m key ≡ some v
      → get_target_nodes_for_key m key ≡ some v.nodes
  unfolding get_target_nodes_for_key
  routed_targets m v e = rw e refl

  -- The reply for a key that the mapper routes to the vdisk `v`.
  pub put-Replied :
      (quorum : ℕ) (w : World) (v : VDisk)
      → get_vdisk_for_key w.mapper key ≡ some v
      → let (reply, w') = put env key d quorum w in
        Replied quorum (alien_vdisk env key d w) w.mapper.local_node_name w w' reply
  unfolding put
  put-Replied quorum w v e =
      put_routed-Replied quorum w v _ _ _ (routed_operation w.mapper v e)
        (routed_targets w.mapper v e)
