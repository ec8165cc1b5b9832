-- ===== src/Cluster/Put/Aliens.antt =====
-- The aliens that `put_aliens` leaves for the nodes that did not take the data
-- (bob/src/cluster/quorum.rs).
use bob.Prelude.{
  All, Bool, List, Member, Member-append_left, Member-append_right, Member-split, String, [], ap,
  drop, false, inl, inr, is_some, length, refl, subst, sym, take, ℕ, ◌++◌, ◌∷◌, ◌≡◌, ◌⊎◌,
}
use bob.Error.{Result, ok, err, internal}
use bob.Data.{BobKey, BobData}
use bob.Node.{Node, DiskPath}
use bob.Options.{BobPutOptions, put_alien_options}
use bob.Backend.Storage.{new_alien, new_local, set_remote_node_name}
use bob.Cluster.World.{
  Task, Joined, Event, remote_put, support_put, local_put, History, World, Environment, call_put,
  backend_put,
}
use bob.Cluster.Put.{pair_up, put_sup_nodes, put_local_all, put_aliens_on}

-- Calls made for aliens only: the history grows, by no put to a target node or to a local disk.
pub record OnlyAliens (w w' : World) : Type 0 where
  pub grows : (e : Event) → Member e w.history → Member e w'.history
  pub remotes :
      (t : Task) (key : BobKey) (d : BobData) (options : BobPutOptions) (a : Joined)
      → Member (remote_put t key d options a) w'.history
      → Member (remote_put t key d options a) w.history
  pub locals :
      (vdisk : ℕ) (path : DiskPath) (key : BobKey) (d : BobData) (r : Result (Unit {0}))
      → Member (local_put (new_local vdisk path) key d r) w'.history
      → Member (local_put (new_local vdisk path) key d r) w.history

pub OnlyAliens-refl : (w : World) → OnlyAliens w w
OnlyAliens-refl w = record {
  grows = λ e m. m;
  remotes = λ t k d o a m. m;
  locals = λ v p k d r m. m;
}

OnlyAliens-trans : {u v w : World} → OnlyAliens u v → OnlyAliens v w → OnlyAliens u w
OnlyAliens-trans g h = record {
  grows = λ e m. h.grows e (g.grows e m);
  remotes = λ t k d o a m. g.remotes t k d o a (h.remotes t k d o a m);
  locals = λ v p k d r m. g.locals v p k d r (h.locals v p k d r m);
}

is_local : Event → Bool
is_local (local_put op key d r) = is_some op.disk_path
is_local _ = false

module _ (key : BobKey) (d : BobData) (vdisk : ℕ) where
  -- The data is kept as an alien of the node: on a support node, or here.
  abbrev pub Covered : String → History → Type 0
  Covered name h =
      ((node : Node) × Member (support_put node key d (put_alien_options (name ∷ [])) (ok tt)) h)
      ⊎ Member (local_put (set_remote_node_name (new_alien vdisk) name) key d (ok tt)) h

  Covered-grows :
      (name : String) (w w' : World)
      → OnlyAliens w w'
      → Covered name w.history
      → Covered name w'.history
  Covered-grows name w w' g (inl (n, m)) = inl (n, g.grows _ m)
  Covered-grows name w w' g (inr m) = inr (g.grows _ m)

module _ (env : Environment) (key : BobKey) (d : BobData) (vdisk : ℕ) where
  call_put-OnlyAliens :
      (node : Node) (options : BobPutOptions) (w : World)
      → OnlyAliens w (call_put env node key d options w).1
  unfolding call_put
  call_put-OnlyAliens node options w = record {
    grows = λ e m. inr m;
    remotes = λ t k d o a m. elim m [ inl f ↦ absurd (cc) | inr n ↦ n ];
    locals = λ v p k d r m. elim m [ inl f ↦ absurd (cc) | inr n ↦ n ];
  }

  backend_put-OnlyAliens :
      (name : String) (w : World)
      → OnlyAliens w (backend_put env (set_remote_node_name (new_alien vdisk) name) key d w).1
  unfolding backend_put is_local
  backend_put-OnlyAliens name w = record {
    grows = λ e m. inr m;
    remotes = λ t k d o a m. elim m [ inl f ↦ absurd (cc) | inr n ↦ n ];
    locals = λ v p k d r m. elim m [ inl f ↦ absurd (cc (ap is_local f)) | inr n ↦ n ];
  }

  -- The names that stay, after the answer for one more.
  abbrev still : Result (Unit {0}) → String → List String → List String
  still r name names = elim r [ ok u ↦ names | err e ↦ name ∷ names ]

  still_here :
      (r : Result (Unit {0})) (name x : String) (names : List String)
      → Member x names
      → Member x (still r name names)
  still_here (ok u) name x names m = m
  still_here (err e) name x names m = inr m

  still-All :
      (C : String → Type 0) (r : Result (Unit {0})) (name : String) (names xs : List String)
      → All (λ x. C x ⊎ Member x names) xs
      → All (λ x. C x ⊎ Member x (still r name names)) xs
  still-All C r name names [] h = tt
  still-All C r name names (x ∷ xs) h = (
    elim h.0 [ inl c ↦ inl c | inr m ↦ inr (still_here r name x names m) ],
    still-All C r name names xs h.1,
  )

  by_support :
      (r : Result (Unit {0})) (node : Node) (name : String) (names : List String) (h : History)
      → Member (support_put node key d (put_alien_options (name ∷ [])) r) h
      → Covered key d vdisk name h ⊎ Member name (still r name names)
  by_support (ok u) node name names h m = inl (inl (node, m))
  by_support (err e) node name names h m = inr (inl refl)

  by_local :
      (r : Result (Unit {0})) (name : String) (names : List String) (h : History)
      → Member (local_put (set_remote_node_name (new_alien vdisk) name) key d r) h
      → Covered key d vdisk name h ⊎ Member name (still r name names)
  by_local (ok u) name names h m = inl (inr m)
  by_local (err e) name names h m = inr (inl refl)

  abbrev targets_of : List (Node × String) → List String
  targets_of [] = []
  targets_of (p ∷ ps) = p.1 ∷ targets_of ps

  put_sup_nodes-lem :
      (pairs : List (Node × String)) (w : World)
      → let (refused, w') = put_sup_nodes env key d pairs w in
        OnlyAliens w w'
        × All (λ x. Covered key d vdisk x w'.history ⊎ Member x refused) (targets_of pairs)
  unfolding put_sup_nodes
  put_sup_nodes-lem [] w = (OnlyAliens-refl w, tt)
  put_sup_nodes-lem ((node, target) ∷ rest) w =
      let options = put_alien_options (target ∷ []) in
      let (r, w1) = call_put env node key d options w in
      let (refused, w2) = put_sup_nodes env key d rest w1 in
      let (g, h) = put_sup_nodes-lem rest w1 in
      (
        OnlyAliens-trans (call_put-OnlyAliens node options w) g,
        (
          by_support r node target refused w2.history (g.grows _ (unfold call_put in inl refl)),
          still-All (λ x. Covered key d vdisk x w2.history) r target refused (targets_of rest) h,
        ),
      )

  put_local_all-lem :
      (names : List String) (w : World)
      → let (failed, w') = put_local_all env key d vdisk names w in
        OnlyAliens w w' × All (λ x. Covered key d vdisk x w'.history ⊎ Member x failed) names
  unfolding put_local_all
  put_local_all-lem [] w = (OnlyAliens-refl w, tt)
  put_local_all-lem (name ∷ names) w =
      let (r, w1) = backend_put env (set_remote_node_name (new_alien vdisk) name) key d w in
      let (failed, w2) = put_local_all env key d vdisk names w1 in
      let (g, h) = put_local_all-lem names w1 in
      (
        OnlyAliens-trans (backend_put-OnlyAliens name w) g,
        (
          by_local r name failed w2.history (g.grows _ (unfold backend_put in inl refl)),
          still-All (λ x. Covered key d vdisk x w2.history) r name failed names h,
        ),
      )

  All-Member : (P : String → Type 0) (x : String) (xs : List String) → All P xs → Member x xs → P x
  All-Member P x [] h m = absurd m
  All-Member P x (y ∷ ys) h (inl f) = subst P (sym f) h.0
  All-Member P x (y ∷ ys) h (inr m) = All-Member P x ys h.1 m

  -- As many names as support nodes: each name is paired.
  paired :
      (sup : List Node) (x : String) (xs : List String)
      → Member x (take (length sup) xs)
      → Member x (targets_of (pair_up sup (take (length sup) xs)))
  paired [] x xs m = absurd m
  paired (n ∷ sup) x [] m = absurd m
  paired (n ∷ sup) x (y ∷ ys) (inl f) = inl f
  paired (n ∷ sup) x (y ∷ ys) (inr m) = inr (paired sup x ys m)

  none_failed :
      (failed : List String)
      → let r : Result (Unit {0}) = elim failed [ [] ↦ ok tt | _ ∷ _ ↦ err internal ] in
        r ≡ ok tt → failed ≡ []
  none_failed [] e = refl
  none_failed (f ∷ fs) e = absurd (cc)

  by_nothing :
      (C : Type 0) (x : String) (failed : List String) → failed ≡ [] → C ⊎ Member x failed → C
  by_nothing C x failed e (inl c) = c
  by_nothing C x failed e (inr m) = absurd (subst (λ l. Member x l) e m)

  -- Where `put_aliens` succeeds every node given to it has its alien.
  pub put_aliens_on-lem :
      (sup : List Node) (failed : List String) (w : World)
      → let (r, w') = put_aliens_on env key d vdisk sup failed w in
        OnlyAliens w w'
        × (r ≡ ok tt → (x : String) → Member x failed → Covered key d vdisk x w'.history)
  unfolding put_aliens_on
  put_aliens_on-lem sup failed w =
      let pairs = pair_up sup (take (length sup) failed) in
      let (refused, w1) = put_sup_nodes env key d pairs w in
      let (g, h) = put_sup_nodes-lem pairs w in
      let (k, l) = put_local_all-lem (drop (length sup) failed ++ refused) w1 in
      (
        OnlyAliens-trans g k,
        λ e x m.
            let done =
              by_nothing
                (Covered key d vdisk x
                  (put_local_all env key d vdisk (drop (length sup) failed ++ refused)
                    w1).1.history)
                x (put_local_all env key d vdisk (drop (length sup) failed ++ refused) w1).0
                (none_failed _ e) in
            elim (Member-split (length sup) x failed m) [
              | inr n ↦
                  done
                    (All-Member _ x _ l (Member-append_left x (drop (length sup) failed) refused n))
              | inl n ↦ elim (All-Member _ x _ h (paired sup x failed n)) [
                | inl c ↦ Covered-grows key d vdisk x w1 _ k c
                | inr q ↦ done (
                    All-Member _ x _ l (Member-append_right x (drop (length sup) failed) refused q))
              ]
            ],
      )
