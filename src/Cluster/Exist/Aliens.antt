-- ===== src/Cluster/Exist/Aliens.antt =====
-- What the alien storages, here and on the other nodes, add to the result of `exist`
-- (bob/src/cluster/quorum.rs).
use bob.Prelude.{
  Bool, Bool-cases, List, String, [], ap, arith, get_elem?, inl, inr, length, map, not, refl, some,
  subst, sym, true, ℕ, ◌&&◌, ◌↔◌, ◌∙◌, ◌∷◌, ◌≡◌, ◌⊎◌,
}
use bob.Data.{BobKey}
use bob.Error.{Result, ok, err}
use bob.Cluster.IndexMap.{IndexMap, collect, update_existence, where_not_exists}
use bob.Cluster.IndexMap.Laws.{
  contains, Within, Within-contains, Within-lt, collect-lem, retain_not_existed-lem,
  where_not_exists-lem, get_elem?-lt, lt-get_elem?,
}
use bob.Backend.Exist.Grouping.{holds_of, reply_of}
use bob.Cluster.Exist.{
  Answers, update_by, check_remote_aliens, check_elsewhere, check_rest, check_aliens_with,
  check_aliens_for, check_aliens,
}
use bob.Cluster.Exist.Steps.{
  IsFound, Finds, Step, Finds-refl, Finds-trans, Finds-cong, update_by-Step,
}
use bob.Cluster.Exist.Replies.{Some, Some-cons, Completes, Step-cong, Step-refl, Step-then}

module _ (keys : List BobKey) (answers : Answers) (alien : String → Result (BobKey → Bool))
    (here : Result (BobKey → Bool))
    (asks : (n : String) (ks : List BobKey) → answers.on_remote_alien n ks ≡ reply_of (alien n) ks)
    (asks_here : (ks : List BobKey) → answers.on_local_alien ks ≡ reply_of here ks) where
  abbrev OnSome : List String → BobKey → Type 0
  OnSome names key = Some names (λ n. holds_of (alien n) key ≡ true)

  check_remote_aliens-Step :
      (indexes : IndexMap) (ks : List BobKey) (names : List String) (r : List Bool)
      → length r ≡ length keys
      → Within (length keys) indexes
      → collect indexes keys ≡ some ks
      → Step keys r
          (check_remote_aliens answers ks indexes names r)
          (λ i key. (contains indexes i ≡ true) × OnSome names key)
  unfolding check_remote_aliens
  check_remote_aliens-Step indexes ks [] r l w c =
      Step-cong keys r _ (λ i k e. (λ f. absurd f, λ s. absurd (s.1.1))) (Step-refl keys r)
  check_remote_aliens-Step indexes ks (name ∷ names) r l w c =
      let one : Step keys r (update_by indexes (answers.on_remote_alien name ks) r)
          (λ i key. (contains indexes i ≡ true) × (holds_of (alien name) key ≡ true)) =
        rw (asks name ks) (update_by-Step keys indexes (alien name) ks r l w c) in
      Step-cong keys r _
        (λ i k e. (
          λ s. elim s [
            | inl (x, y) ↦
                (x, (Some-cons {P = λ n. holds_of (alien n) k ≡ true} name names).0 (inl y))
            | inr (x, y) ↦
                (x, (Some-cons {P = λ n. holds_of (alien n) k ≡ true} name names).0 (inr y))
          ],
          λ (x, y). elim ((Some-cons {P = λ n. holds_of (alien n) k ≡ true} name names).1 y) [
            | inl z ↦ inl (x, z)
            | inr z ↦ inr (x, z)
          ],
        ))
        (Step-then keys r (update_by indexes (answers.on_remote_alien name ks) r)
          (check_remote_aliens answers ks indexes names) l one
          (λ q m. check_remote_aliens-Step indexes ks names q m w c))

  check_rest-Step :
      (others : List String) (indexes : IndexMap) (r : List Bool)
      → length r ≡ length keys
      → Within (length keys) indexes
      → Completes answers
      → Step keys r
          (check_rest answers keys others (some indexes) r)
          (λ i key. (contains indexes i ≡ true) × OnSome others key)
  unfolding check_rest check_elsewhere
  check_rest-Step others [] r l w c =
      Step-cong keys r _ (λ i k e. (λ f. absurd f, λ s. absurd (cc (s.0)))) (Step-refl keys r)
  check_rest-Step others (j ∷ indexes) r l w c =
      let (ks, d, m, f) = collect-lem (j ∷ indexes) keys w in
      rw (d, check_elsewhere)
        (Step-cong keys r _
          (λ i k e. (
            λ (x, y). (x, (y.0, (c others y.0).0 y.1, y.2)),
            λ (x, y). (x, (y.0, (c others y.0).1 y.1, y.2)),
          ))
          (check_remote_aliens-Step (j ∷ indexes) ks (answers.completion others) r l w d))

  -- The places of the keys that were not found: nothing else is left out.
  not-IsFound_or :
      (r : List Bool) (indexes : IndexMap) (i : ℕ) (key : BobKey) (X : Type 0)
      → length r ≡ length keys
      → get_elem? keys i ≡ some key
      → ((b : Bool) → get_elem? r i ≡ some b → contains indexes i ≡ not b)
      → (IsFound r i ⊎ ((contains indexes i ≡ true) × X)) ↔ (IsFound r i ⊎ X)
  not-IsFound_or r indexes i key X l e h =
      let (b, g) = get_elem?-lt r i (omega (arith, l, lt-get_elem? keys i key e)) in
      (
        λ s. elim s [ inl t ↦ inl t | inr t ↦ inr (t.1) ],
        λ s. elim s [
          | inl t ↦ inl t
          | inr x ↦ elim (Bool-cases b) [
            | inl t ↦ inl (g ∙ ap some t)
            | inr t ↦ inr (h b g ∙ ap not t, x)
          ]
        ],
      )

  kept_or :
      (r q : List Bool) (indexes kept : IndexMap) {F : ℕ → BobKey → Type 0} (i : ℕ) (key : BobKey)
      (X : Type 0)
      → length r ≡ length keys
      → get_elem? keys i ≡ some key
      → ((b : Bool) → get_elem? r i ≡ some b → contains indexes i ≡ not b)
      → ((b : Bool) → get_elem? q i ≡ some b → contains kept i ≡ (contains indexes i && not b))
      → Finds keys r q F
      → (IsFound q i ⊎ ((contains kept i ≡ true) × X)) ↔ (IsFound q i ⊎ X)
  kept_or r q indexes kept i key X l e h left f =
      let k = lt-get_elem? keys i key e in
      let (b, g) = get_elem?-lt q i (omega (arith, l, f.same_length, k)) in
      let (a, d) = get_elem?-lt r i (omega (arith, l, k)) in
      (
        λ s. elim s [ inl t ↦ inl t | inr t ↦ inr (t.1) ],
        λ s. elim s [
          | inl t ↦ inl t
          | inr x ↦ elim (Bool-cases b) [
            | inl t ↦ inl (g ∙ ap some t)
            | inr t ↦ elim (Bool-cases a) [
              | inl u ↦ inl ((f.found i key e).1 (inl (d ∙ ap some u)))
              | inr u ↦ inr (left b g ∙ ground (arith, h a d, t, u), x)
            ]
          ]
        ],
      )

  check_aliens_with-Step :
      (others : List String) (indexes : IndexMap) (ks : List BobKey) (r : List Bool)
      (present : Result (BobKey → Bool))
      → length r ≡ length keys
      → Within (length keys) indexes
      → ((i : ℕ) (b : Bool) → get_elem? r i ≡ some b → contains indexes i ≡ not b)
      → collect indexes keys ≡ some ks
      → Completes answers
      → Step keys r
          (check_aliens_with answers keys others indexes (reply_of present ks) r)
          (λ i key. (holds_of present key ≡ true) ⊎ OnSome others key)
  unfolding check_aliens_with
  check_aliens_with-Step others indexes ks r (err x) l w h d c =
      let (q, e, f) = check_rest-Step others indexes r l w c in
      (
        q,
        e,
        Finds-cong keys
            (λ i k a. (
              λ s. elim ((not-IsFound_or r indexes i k (OnSome others k) l a (h i)).0 s) [
                | inl t ↦ inl t
                | inr t ↦ inr (inr t)
              ],
              λ s. (not-IsFound_or r indexes i k (OnSome others k) l a (h i)).1 (elim s [
                | inl t ↦ inl t
                | inr t ↦ elim t [ inl u ↦ absurd (cc u) | inr u ↦ inr u ]
              ]),
            ))
            f,
      )
  check_aliens_with-Step others indexes ks r (ok p) l w h d c =
      let one : Step keys r (update_existence indexes r (map p ks))
          (λ i key. (contains indexes i ≡ true) × (p key ≡ true)) =
        unfold update_by in update_by-Step keys indexes (ok p) ks r l w d in
      let (q, e, f) = one in
      let m : length q ≡ length keys = f.same_length ∙ l in
      let (kept, k, left, only) =
        retain_not_existed-lem indexes q (subst (λ n. Within n indexes) (sym m) w) in
      let (after, a, g) =
        check_rest-Step others kept q m
          (Within-contains (length keys) kept (λ i t. Within-lt indexes i w (only i t))) c in
      (
        after,
        rw (check_aliens_with, e, k) a,
        Finds-trans keys
            (Finds-cong keys (λ i key b. not-IsFound_or r indexes i key (p key ≡ true) l b (h i)) f)
            (Finds-cong keys
              (λ i key b. kept_or r q indexes kept i key (OnSome others key) l b (h i) (left i) f)
              g),
      )

  check_aliens_from-Step :
      (others : List String) (r : List Bool) (indexes : IndexMap)
      → length r ≡ length keys
      → Completes answers
      → Within (length keys) indexes
      → ((i : ℕ) (b : Bool) → get_elem? r i ≡ some b → contains indexes i ≡ not b)
      → Step keys r
          (check_aliens answers keys others indexes r)
          (λ i key. (holds_of here key ≡ true) ⊎ OnSome others key)
  unfolding check_aliens check_aliens_for
  check_aliens_from-Step others r [] l c w h = (
    r,
    refl,
    Finds-cong keys
        (λ i k e. (
          λ s. elim s [ inl t ↦ inl t | inr t ↦ absurd t ],
          λ s. elim ((not-IsFound_or r [] i k _ l e (h i)).1 s) [
            | inl t ↦ inl t
            | inr t ↦ absurd (cc (t.0))
          ],
        ))
        (Finds-refl keys r),
  )
  check_aliens_from-Step others r (j ∷ indexes) l c w h =
      let (ks, d, m, f) = collect-lem (j ∷ indexes) keys w in
      rw (d, check_aliens_for, asks_here ks)
        (check_aliens_with-Step others (j ∷ indexes) ks r here l w h d c)

  pub check_aliens-Step :
      (others : List String) (r : List Bool)
      → length r ≡ length keys
      → Completes answers
      → Step keys r
          (check_aliens answers keys others (where_not_exists r) r)
          (λ i key. (holds_of here key ≡ true) ⊎ OnSome others key)
  check_aliens-Step others r l c =
      let (w, h) = where_not_exists-lem r in
      check_aliens_from-Step others r (where_not_exists r) l c
        (subst (λ n. Within n (where_not_exists r)) l w) h
