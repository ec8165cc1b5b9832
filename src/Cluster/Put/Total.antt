-- ===== src/Cluster/Put/Total.antt =====
-- `put` and its spawned part do not panic (bob/src/cluster/quorum.rs).
use bob.Prelude.{
  Bool-cases, List, Option, String, [], arith, dec_le, false, filter, gt→leb, inl, inr, length,
  length-append, length-map, le→leb, ltb, map, none, not, refl, some, subst, sym, true, ℕ, ◌++◌,
  ◌+◌, ◌==◌, ◌∙◌, ◌∷◌, ◌≡◌, ◌≢◌, ◌≤◌, ◌⊎◌,
}
use bob.Error.{ok, err}
use bob.Data.{BobKey, BobData}
use bob.Node.{DiskPath, VDisk}
use bob.Options.{put_local_options}
use bob.Mapper.{local_disk_paths}
use bob.Mapper.Aliens.{get_support_nodes-total}
use bob.Cluster.Targets.{Routes, local_count, targets_bound}
use bob.Cluster.World.{Task, Joined, joined, lost, History, World, Environment, await_task}
use bob.Cluster.Tasks.{
  Outcome, failed_names, ok_count, process_result, affected_by, put_at_least, task_for,
  finish_at_least_handles,
}
use bob.Cluster.Tasks.Waiting.{finish_at_least_handles-Grows, finish_at_least_handles-enough}
use bob.Cluster.Put.{
  panicked, Background, put_aliens_from, put_aliens, put_aliens_if_any, background_tasks,
  background_put, without_quorum, decide, local_puts, local_failed, message_panics, put_replicas,
  put_to, put_routed, put,
}
use bob.Cluster.Put.Covering.{background_tasks-Grows}
use bob.Cluster.Put.Durable.{message_fits, local_puts-LocalPuts, routed_operation, routed_targets}

module _ (env : Environment) (key : BobKey) (d : BobData) where
  put_aliens-finishes :
      (v : VDisk) (failed : List String) (w : World)
      → Routes key v w.mapper
      → (env.debug_assertions ≡ true → length failed ≤ length w.mapper.nodes)
      → (put_aliens env key d failed w).0 ≢ panicked
  unfolding put_aliens put_aliens_from
  put_aliens-finishes v [] w r b h = cc h
  put_aliens-finishes v (f ∷ fs) w r b h =
      let (sup, m, g, l) =
        get_support_nodes-total env.debug_assertions w.mapper key v (length (f ∷ fs)) r.routed
          r.found r.routed_vdisk (omega arith) b in
      cc (rw (put_aliens, g, put_aliens_from, le→leb (length sup) (length (f ∷ fs)) l) at h)

  put_aliens_if_any-finishes :
      (v : VDisk) (failed : List String) (w : World)
      → Routes key v w.mapper
      → (env.debug_assertions ≡ true → length failed ≤ length w.mapper.nodes)
      → (put_aliens_if_any env key d failed w).0 ≢ panicked
  unfolding put_aliens_if_any
  put_aliens_if_any-finishes v [] w r b h = cc h
  put_aliens_if_any-finishes v (f ∷ fs) w r b h = put_aliens-finishes v (f ∷ fs) w r b h

  -- One more error at most for each awaited task.
  process_result-errors :
      (t : Task) (a : Joined) (o : Outcome)
      → length (failed_names (process_result t a o).errors) ≤ length (failed_names o.errors) + 1
  unfolding process_result
  process_result-errors t (joined (ok u)) o = omega arith
  process_result-errors t (joined (err e)) o =
      rw (length-map, length-map, length-append) (omega arith)
  process_result-errors t lost o = omega arith

  background_tasks-errors :
      (ts : List Task) (o : Outcome) (w : World)
      → length (failed_names (background_tasks env key d ts o w).0.errors)
        ≤ length (failed_names o.errors) + length ts
  unfolding background_tasks await_task
  background_tasks-errors [] o w = omega arith
  background_tasks-errors (t ∷ ts) o w =
      let a = env.on_remote_put w.history t key d put_local_options in
      omega
        (arith, process_result-errors t a o, background_tasks-errors ts (process_result t a o) _)

  finish_at_least_handles-errors :
      (at_least n : ℕ) (o : Outcome) (ts : List Task) (w : World)
      → length (
          failed_names
            (finish_at_least_handles env key d put_local_options at_least n o ts w).0.errors)
        ≤ length (failed_names o.errors) + length ts
  unfolding finish_at_least_handles await_task
  finish_at_least_handles-errors at_least n o [] w = omega arith
  finish_at_least_handles-errors at_least n o (t ∷ ts) w = elim (Bool-cases (ltb n at_least)) [
    | inl e ↦
        let a = env.on_remote_put w.history t key d put_local_options in
        rw e (
          omega (
            arith,
            process_result-errors t a o,
            finish_at_least_handles-errors at_least (n + affected_by t a) (process_result t a o) ts
                _,
          ))
    | inr e ↦ rw e (omega arith)
  ]

  -- The spawned part of `put` does not panic for a key that the mapper routes to a vdisk and, where
  -- debug assertions are on, no more failed nodes and tasks than there are nodes.
  pub background_put-no_panic :
      (b : Background) (w : World) (v : VDisk)
      → Routes key v w.mapper
      → (env.debug_assertions ≡ true
          → length b.failed_nodes + length b.rest_tasks ≤ length w.mapper.nodes)
      → (background_put env key d b w).0 ≢ panicked
  unfolding background_put
  background_put-no_panic b w v r bound =
      let empty : Outcome = record { tasks = []; oks = []; errors = [] } in
      let (o, w1) = background_tasks env key d b.rest_tasks empty w in
      let same = (background_tasks-Grows env key d b.rest_tasks empty w).same_mapper in
      let errors = background_tasks-errors b.rest_tasks empty w in
      put_aliens_if_any-finishes v (b.failed_nodes ++ failed_names o.errors) w1
        (subst (Routes key v) (sym same) r)
        (λ t. rw (same, length-append) (omega (arith, errors, bound t)))

  local_failed-count :
      (paths : Option (List DiskPath)) (n : ℕ) (name : String)
      → length (local_failed env key d paths n name) ≤ local_count paths
  unfolding local_failed
  local_failed-count none n name = omega arith
  local_failed-count (some paths) n name = ground arith

  decide-finishes :
      (quorum : ℕ) (o : Outcome) (local_put_ok : ℕ) (v : VDisk) (failed : List String) (w : World)
      → Routes key v w.mapper
      → (env.debug_assertions ≡ true → length failed ≤ length w.mapper.nodes)
      → (o.tasks ≡ []) ⊎ (quorum ≤ ok_count o.oks)
      → (decide env key d quorum o local_put_ok failed w).0.0 ≢ panicked
  unfolding decide without_quorum
  decide-finishes quorum o local_put_ok v failed w r b q h =
      elim (dec_le quorum (ok_count o.oks + local_put_ok)) [
        | yes p ↦ cc (rw (decide, le→leb _ _ p) at h)
        | no p ↦ elim q [
          | inr z ↦ absurd (omega arith)
          | inl z ↦
              put_aliens-finishes v failed w r b
                (rw (decide, gt→leb quorum (ok_count o.oks + local_put_ok) (omega arith), z) at h)
        ]
      ]

  put_replicas-finishes :
      (quorum : ℕ) (v : VDisk) (affected : List (String × ℕ)) (local_name : String) (w : World)
      → Routes key v w.mapper
      → ((h : History) (ts : List Task) → length (env.completion h ts) ≤ length ts)
      → let paths = local_disk_paths local_name v.replicas none in
        (put_replicas env key d quorum v.id paths v.nodes affected local_name w).0.0 ≢ panicked
  unfolding put_replicas put_at_least
  put_replicas-finishes quorum v affected local_name w r c =
      let paths = local_disk_paths local_name v.replicas none in
      let others = filter (λ n. not (n.name == local_name)) v.nodes in
      let tasks = map (task_for affected) others in
      let spawned = env.completion w.history tasks in
      let empty : Outcome = record { tasks = []; oks = []; errors = [] } in
      let (o, w1) = finish_at_least_handles env key d put_local_options quorum 0 empty spawned w in
      let g = finish_at_least_handles-Grows env key d put_local_options quorum 0 empty spawned w in
      let enough =
        finish_at_least_handles-enough env key d put_local_options quorum 0 empty spawned w refl in
      let (n, w2) = local_puts env key d v.id paths w1 in
      let l = local_puts-LocalPuts env key d v.id paths w1 in
      let same : w2.mapper ≡ w.mapper = l.same_mapper ∙ g.same_mapper in
      let names = local_failed env key d paths n local_name in
      let errors = finish_at_least_handles-errors quorum 0 empty spawned w in
      let bound = targets_bound local_name w.mapper.nodes v r.routed_vdisk in
      decide-finishes quorum o n v (names ++ failed_names o.errors) w2
        (subst (Routes key v) (sym same) r)
        (λ t.
          rw (same, length-append)
            (omega (
              arith,
              errors,
              bound,
              local_failed-count paths n local_name,
              c w.history tasks,
              length-map (task_for affected) others,
            )))
        enough

  -- For a key that the mapper routes to the vdisk `v`, and spawned calls of which each completes at
  -- most once, `put` does not panic, whatever the other nodes and the backend answer, unless
  -- overflow is checked, debug messages are formatted and this node has more replicas than `quorum`.
  pub put-no_panic :
      (quorum : ℕ) (w : World) (v : VDisk)
      → Routes key v w.mapper
      → ((h : History) (ts : List Task) → length (env.completion h ts) ≤ length ts)
      → ((paths : List DiskPath)
          → local_disk_paths w.mapper.local_node_name v.replicas none ≡ some paths
          → env.overflow_checks ≡ true
          → env.debug_logging ≡ true
          → length paths ≤ quorum)
      → (put env key d quorum w).0.0 ≢ panicked
  unfolding put put_routed put_to
  put-no_panic quorum w v r c f =
      let disks = local_disk_paths w.mapper.local_node_name v.replicas none in
      let fits : message_panics env key d quorum disks ≡ false =
        message_fits env key d quorum disks f in
      rw
        (
          put,
          routed_operation env key d w.mapper v r.found,
          routed_targets env key d w.mapper v r.found,
          put_routed,
          put_to,
          fits,
        )
        (put_replicas-finishes quorum v _ w.mapper.local_node_name w r c)
