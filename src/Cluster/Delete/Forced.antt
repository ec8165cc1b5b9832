-- ===== src/Cluster/Delete/Forced.antt =====
-- The forced deletes of aliens for the nodes that failed (`delete_aliens` of
-- bob/src/cluster/quorum.rs).
use bob.Prelude.{
  Bool, Bool-cases, List, Member, Member-append_left, Member-append_right, Member-split,
  Option-cases, String, [], any-Member, ap, arith, eq_iff, eqb, false, filter, inl, inr, leb,
  leb→le, length, length-take, map, not, refl, subst, sym, true, ℕ, ◌&&◌, ◌==◌, ◌↔◌, ◌∷◌, ◌≡◌, ◌≤◌,
  ◌⊎◌,
}
use bob.Error.{Result, ok, err, internal}
use bob.Data.{BobKey}
use bob.Node.{Node}
use bob.Options.{delete_alien_options}
use bob.Backend.Storage.{new_alien, set_remote_node_name}
use bob.Mapper.{get_support_nodes}
use bob.Cluster.Put.{finished, pair_up}
use bob.Cluster.Delete.{
  local_delete, History, World, Environment, contains_name, set_insert, set_extend, drain_collect,
  forced_names, with_forced, support_queries, backend_delete, delete_on_remote_nodes,
  delete_on_local_aliens, delete_on_support, delete_elsewhere, delete_aliens_from, delete_aliens,
}
use bob.Cluster.Delete.Calls.{
  Later, Answered, Answered-Later, Completes, delete_on_remote_nodes-lem,
}

pub contains-Member :
    (names : List String) (x : String) → (contains_name names x ≡ true) ↔ Member x names
contains-Member names x = (
  λ e. let (n, m, f) = (any-Member _ names).0 e in subst (λ y. Member y names) ((eq_iff n x).0 f) m,
  λ m. (any-Member _ names).1 (x, m, (eq_iff x x).1 refl),
)

pub set_insert-Member :
    (names : List String) (x : String)
    → Member x (set_insert names x)
      × ((y : String) → Member y names → Member y (set_insert names x))
unfolding set_insert
set_insert-Member names x = elim (Bool-cases (contains_name names x)) [
  | inl e ↦ rw e ((contains-Member names x).0 e, λ y m. m)
  | inr e ↦ rw e (
    Member-append_right x names (x ∷ []) (inl refl),
    λ y m. Member-append_left y names (x ∷ []) m,
  )
]

pub set_extend-Member :
    (xs names : List String)
    → ((y : String) → Member y names → Member y (set_extend names xs))
      × ((y : String) → Member y xs → Member y (set_extend names xs))
unfolding set_extend
set_extend-Member [] names = (λ y m. m, λ y m. absurd m)
set_extend-Member (x ∷ xs) names =
    let (f, g) = set_insert-Member names x in
    let (h, k) = set_extend-Member xs (set_insert names x) in
    (
      λ y m. h y (g y m),
      λ y m. elim m [
        | inl e ↦ h y (subst (λ z. Member z (set_insert names x)) (sym e) f)
        | inr n ↦ k y n
      ],
    )

drain_collect-Member :
    (names : List String) (count : ℕ) (x : String)
    → Member x names
    → Member x (drain_collect names count).0 ⊎ Member x (drain_collect names count).1
unfolding drain_collect
drain_collect-Member names count x m = elim (Bool-cases (leb (length names) count)) [
  | inl e ↦ rw e (inl m)
  | inr e ↦ elim (Bool-cases (eqb count 0)) [
    | inl f ↦ rw (e, f) (inr m)
    | inr f ↦ rw (e, f) (Member-split count x names m)
  ]
]

length-drain_collect :
    (names : List String) (count : ℕ) → length (drain_collect names count).0 ≤ count
unfolding drain_collect
length-drain_collect names count = elim (Bool-cases (leb (length names) count)) [
  | inl e ↦ rw e (leb→le (length names) count e)
  | inr e ↦ elim (Bool-cases (eqb count 0)) [
    | inl f ↦ rw (e, f) (omega arith)
    | inr f ↦ rw (e, f) (omega (arith, length-take count names))
  ]
]

-- Each name has its query where there are enough support nodes.
queried :
    (sup : List Node) (names : List String) (x : String)
    → length names ≤ length sup
    → Member x names
    → (node : Node) × Member
        (node, delete_alien_options (x ∷ []))
        (support_queries (pair_up sup names))
queried sup [] x l m = absurd m
queried [] (y ∷ names) x l m = absurd (omega (arith, l))
queried (n ∷ sup) (y ∷ names) x l (inl e) =
    (n, inl (ap (λ z. (n, delete_alien_options (z ∷ []))) e))
queried (n ∷ sup) (y ∷ names) x l (inr m) =
    let (k, q) = queried sup names x (omega (arith, l)) m in (k, inr q)

finished_ok : (r : Result (Unit {0})) → finished r ≡ finished (ok tt) → r ≡ ok tt
finished_ok r e = cc

module _ (vdisk : ℕ) where
  -- A forced delete of the node's aliens was answered without an error: by a support node, or here.
  abbrev pub Forced : String → History → Type 0
  Forced name h =
      ((node : Node) × Answered node (delete_alien_options (name ∷ [])) h)
      ⊎ ((c : ℕ) × Member (local_delete (set_remote_node_name (new_alien vdisk) name) true (ok c))
            h)

  Forced-Later :
      (name : String) (w w' : World) → Later w w' → Forced name w.history → Forced name w'.history
  Forced-Later name w w' g (inl (n, a)) =
      inl (n, Answered-Later n (delete_alien_options (name ∷ [])) w w' g a)
  Forced-Later name w w' g (inr (c, m)) = inr (c, g _ m)

  module _ (env : Environment) where
    delete_on_support-lem :
        (sup : List Node) (names rest : List String) (w : World)
        → length names ≤ length sup
        → Completes env
        → let (after, w') = delete_on_support env sup (names, rest) w in
          Later w w'
          × ((x : String) → Member x names ⊎ Member x rest → Forced x w'.history ⊎ Member x after)
    unfolding delete_on_support
    delete_on_support-lem sup names rest w l c =
        let queries = support_queries (pair_up sup names) in
        let (errors, w1) = delete_on_remote_nodes env queries w in
        let (g, h) = delete_on_remote_nodes-lem env queries w c in
        let (f, k) = set_extend-Member (forced_names errors) rest in
        (
          g,
          λ x s. elim s [
            | inr m ↦ inr (f x m)
            | inl m ↦
                let (node, q) = queried sup names x l m in
                elim (h (node, delete_alien_options (x ∷ [])) q) [
                  | inl a ↦ inl (inl (node, a))
                  | inr (n, p) ↦ inr (k x (p x (inl refl)))
                ]
          ],
        )

    -- A forced delete here succeeds, or its node is among those that failed.
    Forced-here :
        (b : Bool) (r : Result ℕ) (name : String) (names : List String) (h : History)
        → b ≡ true
        → Member (local_delete (set_remote_node_name (new_alien vdisk) name) b r) h
        → Forced name h ⊎ Member name (with_forced b r name names)
    Forced-here true (ok c) name names h e m = inl (inr (c, m))
    Forced-here true (err x) name names h e m = inr (inl refl)
    Forced-here false r name names h e m = absurd (cc e)

    still_forced :
        (b : Bool) (r : Result ℕ) (name x : String) (names : List String)
        → Member x names
        → Member x (with_forced b r name names)
    still_forced true (ok c) name x names m = m
    still_forced true (err e) name x names m = inr m
    still_forced false r name x names m = m

    delete_on_local_aliens-lem :
        (force : List String) (nodes : List Node) (w : World)
        → let (failed, w') = delete_on_local_aliens env vdisk force nodes w in
          Later w w'
          × ((n : Node)
              → Member n nodes
              → Member n.name force
              → Forced n.name w'.history ⊎ Member n.name failed)
    unfolding delete_on_local_aliens backend_delete
    delete_on_local_aliens-lem force [] w = (λ e m. m, λ n m k. absurd m)
    delete_on_local_aliens-lem force (n ∷ nodes) w =
        let b = contains_name force n.name in
        let op = set_remote_node_name (new_alien vdisk) n.name in
        let (r, w1) = backend_delete env op b w in
        let (failed, w2) = delete_on_local_aliens env vdisk force nodes w1 in
        let (g, h) = delete_on_local_aliens-lem force nodes w1 in
        (
          λ e m. g e (inr m),
          λ x m k. elim m [
            | inl e ↦
                let f : b ≡ true =
                  (contains-Member force n.name).1
                    (subst (λ y. Member y force) (ap (λ (y : Node). y.name) e) k) in
                let seen : Member (local_delete op b r) w2.history = g _ (inl refl) in
                let done : Forced n.name w2.history
                    ⊎ Member n.name (with_forced b r n.name failed) =
                  Forced-here b r n.name failed w2.history f seen in
                rw (ap (λ (y : Node). y.name) e) done
            | inr p ↦ elim (h x p k) [
              | inl q ↦ inl q
              | inr q ↦ inr (still_forced b r n.name x.name failed q)
            ]
          ],
        )

    none_failed :
        (failed : List String)
        → let r : Result (Unit {0}) = elim failed [ [] ↦ ok tt | _ ∷ _ ↦ err internal ] in
          r ≡ ok tt → failed ≡ []
    none_failed [] e = refl
    none_failed (f ∷ fs) e = absurd (cc e)

    -- Where the rest succeeds, each target that was to be forced is.
    delete_elsewhere-lem :
        (targets sup : List Node) (force : List String) (w : World)
        → Completes env
        → let (r, w') = delete_elsewhere env vdisk targets sup force w in
          Later w w'
          × (r ≡ ok tt
              → (n : Node) → Member n targets
              → Member n.name force
              → Forced n.name w'.history)
    unfolding delete_elsewhere
    delete_elsewhere-lem targets sup force w c =
        let others =
          filter
            (λ n.
              not (contains_name (map (λ s. s.name) sup) n.name)
              && not (n.name == w.mapper.local_node_name))
            w.mapper.nodes in
        let queries = map (λ n. (n, delete_alien_options [])) others in
        let (errors, w1) = delete_on_remote_nodes env queries w in
        let (g, p) = delete_on_remote_nodes-lem env queries w c in
        let (failed, w2) = delete_on_local_aliens env vdisk force targets w1 in
        let (h, q) = delete_on_local_aliens-lem force targets w1 in
        (
          λ e m. h e (g e m),
          λ e n m k. elim (q n m k) [
            | inl f ↦ f
            | inr f ↦ absurd (subst (λ l. Member n.name l) (none_failed failed e) f)
          ],
        )

    -- Where it succeeds, each target among the failed nodes has its aliens deleted by force.
    pub delete_aliens-lem :
        (key : BobKey) (targets : List Node) (failed : List String) (w : World)
        → Completes env
        → let (r, w') = delete_aliens env key vdisk targets failed w in
          Later w w'
          × (r ≡ finished (ok tt)
              → (n : Node) → Member n targets
              → Member n.name failed
              → Forced n.name w'.history)
    unfolding delete_aliens delete_aliens_from
    delete_aliens-lem key targets [] w c =
        let (g, h) = delete_elsewhere-lem targets [] [] w c in (g, λ e n m k. absurd k)
    delete_aliens-lem key targets (f ∷ fs) w c =
        elim (Option-cases
          (get_support_nodes env.debug_assertions w.mapper key (length (f ∷ fs)))) [
            | inl e ↦ rw (e, delete_aliens_from) (λ e m. m, λ e n m k. absurd (cc e))
            | inr ((sup, m), e) ↦
                let drained = drain_collect (f ∷ fs) (length sup) in
                let w1 : World = record w { mapper = m } in
                let (rest, w2) = delete_on_support env sup drained w1 in
                let (g, h) =
                  delete_on_support-lem sup drained.0 drained.1 w1
                    (length-drain_collect (f ∷ fs) (length sup)) c in
                let (k, p) = delete_elsewhere-lem targets sup rest w2 c in
                rw (e, delete_aliens_from)
                  (
                    λ x a. k x (g x a),
                    λ x n a b.
                        elim (h n.name (drain_collect-Member (f ∷ fs) (length sup) n.name b)) [
                          | inl q ↦
                              Forced-Later n.name w2
                                (delete_elsewhere env vdisk targets sup rest w2).1 k q
                          | inr q ↦
                              p (finished_ok (delete_elsewhere env vdisk targets sup rest w2).0 x) n
                                a q
                        ],
                  )
          ]
