-- ===== src/Cluster/Put/Covering.antt =====
-- `put_aliens` and the spawned part of `put` (bob/src/cluster/quorum.rs) for a key that the mapper
-- routes.
use bob.Prelude.{
  Bool-cases, List, Member, Member-append_left, Member-append_right, Option, String, [], ap, inl,
  inr, leb, length, none, refl, some, subst, ℕ, ◌++◌, ◌∷◌, ◌≡◌, ◌⊎◌,
}
use bob.Error.{Error, Result, ok, err}
use bob.Data.{BobKey, BobData}
use bob.Node.{Node}
use bob.Options.{BobPutOptions, put_local_options}
use bob.Mapper.{Virtual, vdisk_id_from_key}
use bob.Cluster.World.{Task, joined, remote_put, World, Environment, await_task}
use bob.Cluster.Tasks.{Outcome, failed_names, process_result}
use bob.Cluster.Tasks.Waiting.{Grows, Grows-refl, Grows-trans, Grows-step}
use bob.Cluster.Put.{
  Finished, finished, Background, put_aliens_from, put_aliens, put_aliens_if_any, background_tasks,
  background_put,
}
use bob.Cluster.Put.Aliens.{OnlyAliens, OnlyAliens-refl, Covered, put_aliens_on-lem}

finished_inj : {A : Type 0} (a b : A) → finished a ≡ finished b → a ≡ b
finished_inj a b e = cc

module _ (env : Environment) (key : BobKey) (d : BobData) where
  -- What `put_aliens` does to the world.
  pub record PutAliens (vdisk : ℕ) (failed : List String) (w w' : World)
      (r : Finished (Result (Unit {0}))) : Type 0 where
    pub calls : OnlyAliens w w'
    pub covers :
        r ≡ finished (ok tt) → (x : String) → Member x failed → Covered key d vdisk x w'.history

  put_aliens_from-PutAliens :
      (vdisk : ℕ) (failed : List String) (w : World) (p : Option (List Node × Virtual))
      → PutAliens vdisk failed w
          (put_aliens_from env key d vdisk failed p w).1
          (put_aliens_from env key d vdisk failed p w).0
  unfolding put_aliens_from
  put_aliens_from-PutAliens vdisk failed w none = record {
    calls = OnlyAliens-refl w;
    covers = λ h. absurd (cc h);
  }
  put_aliens_from-PutAliens vdisk failed w (some (s, n)) =
      let moved : World = record w { mapper = n } in
      let (calls, covers) = put_aliens_on-lem env key d vdisk s failed moved in
      elim (Bool-cases (leb (length s) (length failed))) [
        | inl e ↦ rw e (record {
          calls = record { grows = calls.grows; remotes = calls.remotes; locals = calls.locals };
          covers = λ h. covers (finished_inj _ _ h);
        })
        | inr e ↦ rw e (record {
          calls = record {
            grows = λ x m. m;
            remotes = λ t k c o a m. m;
            locals = λ v q k c a m. m;
          };
          covers = λ h. absurd (cc h);
        })
      ]

  abbrev pub alien_vdisk : World → ℕ
  alien_vdisk w = vdisk_id_from_key w.mapper key

  pub put_aliens-PutAliens :
      (failed : List String) (w : World)
      → PutAliens
          (alien_vdisk w)
          failed
          w
          (put_aliens env key d failed w).1
          (put_aliens env key d failed w).0
  unfolding put_aliens
  put_aliens-PutAliens [] w = record { calls = OnlyAliens-refl w; covers = λ f x m. absurd m }
  put_aliens-PutAliens (f ∷ fs) w = put_aliens_from-PutAliens (alien_vdisk w) (f ∷ fs) w _

  -- `put_aliens` succeeds only if there is a failed node.
  pub put_aliens-some :
      (failed : List String) (w : World)
      → (put_aliens env key d failed w).0 ≡ finished (ok tt)
      → (x : String) × Member x failed
  unfolding put_aliens
  put_aliens-some [] w h = absurd (cc h)
  put_aliens-some (f ∷ fs) w h = (f, inl refl)

  pub background_tasks-Grows :
      (ts : List Task) (o : Outcome) (w : World)
      → Grows w o (background_tasks env key d ts o w).1 (background_tasks env key d ts o w).0
  unfolding background_tasks await_task
  background_tasks-Grows [] o w = Grows-refl w o o refl refl
  background_tasks-Grows (t ∷ ts) o w =
      let a = env.on_remote_put w.history t key d put_local_options in
      Grows-trans (Grows-step env key d put_local_options w o t a)
        (background_tasks-Grows ts (process_result t a o) _)

  put_aliens_if_any-PutAliens :
      (failed : List String) (w : World)
      → PutAliens
          (alien_vdisk w)
          failed
          w
          (put_aliens_if_any env key d failed w).1
          (put_aliens_if_any env key d failed w).0
  unfolding put_aliens_if_any
  put_aliens_if_any-PutAliens [] w = record {
    calls = OnlyAliens-refl w;
    covers = λ f x m. absurd m;
  }
  put_aliens_if_any-PutAliens (f ∷ fs) w = put_aliens-PutAliens (f ∷ fs) w

  -- What is left of the failed puts after the spawned part, if it succeeds.
  pub record BackgroundPut (vdisk : ℕ) (b : Background) (w w' : World)
      (r : Finished (Result (Unit {0}))) : Type 0 where
    pub covers :
        r ≡ finished (ok tt)
        → (x : String) → Member x b.failed_nodes
        → Covered key d vdisk x w'.history
    pub covers_new :
        r ≡ finished (ok tt)
        → (t : Task) (k : BobKey) (c : BobData) (options : BobPutOptions) (e : Error)
        → Member (remote_put t k c options (joined (err e))) w'.history
        → Member (remote_put t k c options (joined (err e))) w.history
          ⊎ Covered key d vdisk t.node.name w'.history

  -- If the spawned part of `put` succeeds, each node that it was given as failed has an alien, and
  -- so has the node of each put that failed in it.
  pub background_put-BackgroundPut :
      (b : Background) (w : World)
      → BackgroundPut
          (alien_vdisk w)
          b
          w
          (background_put env key d b w).1
          (background_put env key d b w).0
  unfolding background_put
  background_put-BackgroundPut b w =
      let empty : Outcome = record { tasks = []; oks = []; errors = [] } in
      let (o, w1) = background_tasks env key d b.rest_tasks empty w in
      let g = background_tasks-Grows b.rest_tasks empty w in
      let failed = b.failed_nodes ++ failed_names o.errors in
      let (r, w2) = put_aliens_if_any env key d failed w1 in
      let p =
        subst (λ v. PutAliens v failed w1 w2 r) (ap (λ m. vdisk_id_from_key m key) g.same_mapper)
          (put_aliens_if_any-PutAliens failed w1) in
      record {
        covers =
            λ h x m. p.covers h x (Member-append_left x b.failed_nodes (failed_names o.errors) m);
        covers_new = λ h t k c options f m.
            elim (g.failed t k c options f (p.calls.remotes t k c options _ m)) [
              | inl n ↦ inl n
              | inr n ↦ inr (
                  p.covers h t.node.name
                    (Member-append_right _ b.failed_nodes (failed_names o.errors) n))
            ];
      }
