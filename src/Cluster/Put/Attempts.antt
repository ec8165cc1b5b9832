-- ===== src/Cluster/Put/Attempts.antt =====
-- Which nodes `put` calls (bob/src/cluster/quorum.rs).
use bob.Prelude.{
  Bool, Bool-cases, List, Member, Member-map, Option, String, [], all, ap, arith, dec_le, eq_iff,
  false, filter, gt→leb, inl, inr, length, le→leb, ltb, map, none, not, refl, some, subst, true, ℕ,
  ◌++◌, ◌+◌, ◌==◌, ◌∷◌, ◌≡◌, ◌≢◌, ◌≤◌, ◌⊎◌,
}
use bob.Data.{BobKey, BobData}
use bob.Node.{Node, DiskPath, VDisk}
use bob.Options.{put_local_options}
use bob.Mapper.{local_disk_paths, get_vdisk_for_key, get_replicas_count_by_node}
use bob.Cluster.World.{
  Task, Joined, Event, remote_put, History, World, Environment, await_task, backend_put,
}
use bob.Cluster.Tasks.{
  Outcome, failed_names, ok_count, process_result, affected_by, finish_at_least_handles,
  put_at_least, task_for,
}
use bob.Cluster.Tasks.Waiting.{later, finish_at_least_handles-Grows, finish_at_least_handles-enough}
use bob.Cluster.Put.{
  Background, background_of, without_quorum, decide, put_local_node_all, local_puts, local_failed,
  put_to, put_replicas, message_panics, put_routed, put,
}
use bob.Cluster.Put.Covering.{put_aliens-PutAliens}
use bob.Cluster.Put.Durable.{message_fits, routed_operation, routed_targets}

-- The tasks that `put` leaves to the spawned part.
abbrev pub left : Option Background → List Task
left none = []
left (some b) = b.rest_tasks

left-background_of : (ts : List Task) (fs : List String) → left (background_of ts fs) ≡ ts
left-background_of [] [] = refl
left-background_of [] (f ∷ fs) = refl
left-background_of (t ∷ ts) fs = refl

filter_keeps :
    {A : Type 0} (p : A → Bool) (a : A) (xs : List A)
    → Member a xs
    → p a ≡ true
    → Member a (filter p xs)
filter_keeps p a [] m e = absurd m
filter_keeps p a (x ∷ xs) (inl f) e = ground (arith, ap p f, e)
filter_keeps p a (x ∷ xs) (inr m) e = ground (arith, filter_keeps p a xs m e)

differs : (s t : String) → s ≢ t → not (s == t) ≡ true
differs s t n = ground (arith, eq_iff s t)

module _ (env : Environment) (key : BobKey) (d : BobData) where
  -- The task's put is called, and has an answer.
  abbrev pub Tried : Task → History → Type 0
  Tried t h = (a : Joined) × Member (remote_put t key d put_local_options a) h

  -- Nothing of the history is lost.
  abbrev Keeps : World → World → Type 0
  Keeps w w' = (e : Event) → Member e w.history → Member e w'.history

  module _ (at_least : ℕ) where
    abbrev run : ℕ → Outcome → List Task → World → Outcome × World
    run n o ts w = finish_at_least_handles env key d put_local_options at_least n o ts w

    run-Keeps : (n : ℕ) (o : Outcome) (ts : List Task) (w : World) → Keeps w (run n o ts w).1
    unfolding finish_at_least_handles await_task
    run-Keeps n o [] w e m = m
    run-Keeps n o (t ∷ ts) w e m = elim (Bool-cases (ltb n at_least)) [
      | inl f ↦
          let a = env.on_remote_put w.history t key d put_local_options in
          rw f (
            run-Keeps (n + affected_by t a) (process_result t a o) ts
              (later env key d put_local_options w t a) e (inr m))
      | inr f ↦ rw f m
    ]

    run-Tried :
        (n : ℕ) (o : Outcome) (ts : List Task) (w : World) (t : Task)
        → Member t ts
        → Member t (run n o ts w).0.tasks ⊎ Tried t (run n o ts w).1.history
    unfolding finish_at_least_handles await_task
    run-Tried n o [] w t m = absurd m
    run-Tried n o (s ∷ ts) w t m = elim (Bool-cases (ltb n at_least)) [
      | inr f ↦ rw f (inl m)
      | inl f ↦
          let a = env.on_remote_put w.history s key d put_local_options in
          let w1 = later env key d put_local_options w s a in
          let o1 = process_result s a o in
          rw f (elim m [
            | inr k ↦ run-Tried (n + affected_by s a) o1 ts w1 t k
            | inl e ↦ inr (
              a,
              run-Keeps (n + affected_by s a) o1 ts w1 _
                  (inl (ap (λ u. remote_put u key d put_local_options a) e)),
            )
          ])
    ]

  put_local_node_all-Keeps :
      (vdisk : ℕ) (paths : List DiskPath) (w : World)
      → Keeps w (put_local_node_all env key d vdisk paths w).1
  unfolding put_local_node_all backend_put
  put_local_node_all-Keeps vdisk [] w e m = m
  put_local_node_all-Keeps vdisk (p ∷ paths) w e m =
      put_local_node_all-Keeps vdisk paths _ e (inr m)

  local_puts-Keeps :
      (vdisk : ℕ) (paths : Option (List DiskPath)) (w : World)
      → Keeps w (local_puts env key d vdisk paths w).1
  unfolding local_puts
  local_puts-Keeps vdisk none w e m = m
  local_puts-Keeps vdisk (some paths) w e m = put_local_node_all-Keeps vdisk paths w e m

  decide-Tried :
      (quorum : ℕ) (o : Outcome) (local_put_ok : ℕ) (failed : List String) (w : World) (t : Task)
      → (o.tasks ≡ []) ⊎ (quorum ≤ ok_count o.oks)
      → Member t o.tasks ⊎ Tried t w.history
      → let (reply, w') = decide env key d quorum o local_put_ok failed w in
        Member t (left reply.1) ⊎ Tried t w'.history
  unfolding decide without_quorum
  decide-Tried quorum o local_put_ok failed w t q m =
      elim (dec_le quorum (ok_count o.oks + local_put_ok)) [
        | yes p ↦ rw (le→leb _ _ p, left-background_of o.tasks failed) m
        | no p ↦ elim q [
          | inr z ↦ absurd (omega arith)
          | inl z ↦
              let g = put_aliens-PutAliens env key d failed w in
              rw (gt→leb quorum (ok_count o.oks + local_put_ok) (omega arith), z)
                (elim m [
                  | inl k ↦ absurd (subst (λ l. Member t l) z k)
                  | inr (a, k) ↦ inr (a, g.calls.grows _ k)
                ])
        ]
      ]

  put_to-Tried :
      (quorum vdisk : ℕ) (paths : Option (List DiskPath)) (targets : List Node)
      (affected : List (String × ℕ)) (local_name : String) (w : World) (n : Node)
      → message_panics env key d quorum paths ≡ false
      → ((h : History) (ts : List Task) (t : Task) → Member t ts → Member t (env.completion h ts))
      → Member n targets
      → n.name ≢ local_name
      → let (reply, w') = put_to env key d quorum vdisk paths targets affected local_name w in
        Member (task_for affected n) (left reply.1) ⊎ Tried (task_for affected n) w'.history
  unfolding put_to put_replicas put_at_least
  put_to-Tried quorum vdisk paths targets affected local_name w n e all m other =
      let others = filter (λ x. not (x.name == local_name)) targets in
      let spawned = env.completion w.history (map (task_for affected) others) in
      let empty : Outcome = record { tasks = []; oks = []; errors = [] } in
      let (o, w1) = run quorum 0 empty spawned w in
      let g = finish_at_least_handles-Grows env key d put_local_options quorum 0 empty spawned w in
      let enough =
        finish_at_least_handles-enough env key d put_local_options quorum 0 empty spawned w refl in
      let (k, w2) = local_puts env key d vdisk paths w1 in
      let t = task_for affected n in
      let here = all w.history (map (task_for affected) others) t (
        Member-map (task_for affected) n others (
          filter_keeps (λ x. not (x.name == local_name)) n targets m
            (differs n.name local_name other))) in
      rw (put_to, e)
        (decide-Tried quorum o k
          (local_failed env key d paths k local_name ++ failed_names o.errors) w2 t enough
          (elim (run-Tried quorum 0 empty spawned w t here) [
            | inl z ↦ inl z
            | inr (a, z) ↦ inr (a, local_puts-Keeps vdisk paths w1 _ z)
          ]))

  put_routed-Tried :
      (quorum : ℕ) (w : World) (v : VDisk) (paths : Option (List DiskPath))
      (operation : Option (ℕ × Option (List DiskPath))) (targets : Option (List Node)) (n : Node)
      → operation ≡ some (v.id, paths)
      → targets ≡ some v.nodes
      → message_panics env key d quorum paths ≡ false
      → ((h : History) (ts : List Task) (t : Task) → Member t ts → Member t (env.completion h ts))
      → Member n v.nodes
      → n.name ≢ w.mapper.local_node_name
      → let (reply, w') = put_routed env key d quorum operation targets w in
        let t = task_for (get_replicas_count_by_node w.mapper key) n in
        Member t (left reply.1) ⊎ Tried t w'.history
  unfolding put_routed
  put_routed-Tried quorum w v paths operation targets n p q e all m other =
      rw (p, q, put_routed)
        (put_to-Tried quorum v.id paths v.nodes _ w.mapper.local_node_name w n e all m other)

  -- For a key that the mapper has the vdisk `v` for, where this node has no more replicas than
  -- `quorum` if overflow is checked and debug messages are formatted, and where all spawned calls
  -- complete: each target node other than this one is sent the data by `put`, and answers, or its
  -- call is among the tasks that are left to the spawned part.
  pub put-Tried :
      (quorum : ℕ) (w : World) (v : VDisk) (n : Node)
      → get_vdisk_for_key w.mapper key ≡ some v
      → ((paths : List DiskPath)
          → local_disk_paths w.mapper.local_node_name v.replicas none ≡ some paths
          → env.overflow_checks ≡ true
          → env.debug_logging ≡ true
          → length paths ≤ quorum)
      → ((h : History) (ts : List Task) (t : Task) → Member t ts → Member t (env.completion h ts))
      → Member n v.nodes
      → n.name ≢ w.mapper.local_node_name
      → let (reply, w') = put env key d quorum w in
        let t = task_for (get_replicas_count_by_node w.mapper key) n in
        Member t (left reply.1) ⊎ Tried t w'.history
  unfolding put
  put-Tried quorum w v n e f =
      put_routed-Tried quorum w v _ _ _ n (routed_operation env key d w.mapper v e)
        (routed_targets env key d w.mapper v e) (message_fits env key d quorum _ f)
