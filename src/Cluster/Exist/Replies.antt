-- ===== src/Cluster/Exist/Replies.antt =====
-- What the replies of the nodes of a group, and of the aliens, add to the result of `exist`
-- (bob/src/cluster/quorum.rs).
use bob.Prelude.{
  Bool, Bool-cases, List, Member, Option, String, [], ap, arith, eq_iff, get_elem?, inl, inr,
  length, map, none, refl, some, subst, sym, true, ℕ, ◌<◌, ◌==◌, ◌↔◌, ◌∙◌, ◌∷◌, ◌≡◌, ◌⊎◌,
}
use bob.Data.{BobKey}
use bob.Error.{Result}
use bob.Map.{get, string_eq}
use bob.Cluster.IndexMap.{IndexMap, collect}
use bob.Cluster.IndexMap.Laws.{Within, Within-contains, get_elem?-lt, lt-get_elem?}
use bob.Backend.Exist.Grouping.{holds_of, reply_of}
use bob.Cluster.Exist.{
  and_then, Answers, NodeIndexes, NodeKeys, apply_reply, apply_replies, ask_gathered,
  collect_remote_exists,
}
use bob.Cluster.Exist.Maps.{contains_at, holds_place, UniqueNames}
use bob.Cluster.Exist.Gathering.{gather-lem}
use bob.Cluster.Exist.Steps.{Step, Finds-refl, Finds-trans, Finds-cong, update_by-Step}

-- A name for which a test holds, among some.
abbrev pub Some : List String → (String → Type 0) → Type 0
Some names P = (n : String) × Member n names × P n

pub Some-cons :
    {P : String → Type 0} (name : String) (names : List String)
    → (P name ⊎ Some names P) ↔ Some (name ∷ names) P
Some-cons {P} name names = (
  λ s. elim s [ inl p ↦ (name, inl refl, p) | inr (n, m, p) ↦ (n, inr m, p) ],
  λ (n, m, p). elim m [ inl e ↦ inl (subst P e p) | inr k ↦ inr (n, k, p) ],
)

-- The keys that are held, and the order of the calls: each call that is made completes, once or
-- more, and no other does.
abbrev pub Completes : Answers → Type 0
Completes answers =
    (names : List String) (n : String) → Member n (answers.completion names) ↔ Member n names

module _ (keys : List BobKey) where
  pub Step-cong :
      (r : List Bool) (o : Option (List Bool)) {F G : ℕ → BobKey → Type 0}
      → ((i : ℕ) (key : BobKey) → get_elem? keys i ≡ some key → F i key ↔ G i key)
      → Step keys r o F
      → Step keys r o G
  Step-cong r o h (q, e, f) = (
    q,
    e,
    Finds-cong keys
        (λ i k a. (
          λ s. elim s [ inl t ↦ inl t | inr t ↦ inr ((h i k a).0 t) ],
          λ s. elim s [ inl t ↦ inl t | inr t ↦ inr ((h i k a).1 t) ],
        ))
        f,
  )

  pub Step-refl : (r : List Bool) → Step keys r (some r) (λ i k. ⊥)
  Step-refl r = (r, refl, Finds-refl keys r)

  -- One step and then the others.
  pub Step-then :
      (r : List Bool) (o : Option (List Bool)) (next : List Bool → Option (List Bool))
      {F G : ℕ → BobKey → Type 0}
      → length r ≡ length keys
      → Step keys r o F
      → ((q : List Bool) → length q ≡ length keys → Step keys q (next q) G)
      → Step keys r (elim o [ none ↦ none | some q ↦ next q ]) (λ i k. F i k ⊎ G i k)
  Step-then r o next l (q, e, f) g =
      let (p, d, h) = g q (f.same_length ∙ l) in (p, rw e d, Finds-trans keys f h)

  pub Step-and_then :
      (r : List Bool) (o : Option (List Bool)) (next : List Bool → Option (List Bool))
      {F G : ℕ → BobKey → Type 0}
      → length r ≡ length keys
      → Step keys r o F
      → ((q : List Bool) → length q ≡ length keys → Step keys q (next q) G)
      → Step keys r (and_then o next) (λ i k. F i k ⊎ G i k)
  Step-and_then r o next l (q, e, f) g =
      let (p, d, h) = g q (f.same_length ∙ l) in (p, rw e d, Finds-trans keys f h)

  module _ (answers : Answers) (remote : String → Result (BobKey → Bool))
      (asks : (n : String) (ks : List BobKey)
        → answers.on_remote n ks ≡ reply_of (remote n) ks) where
    -- The replies of nodes that were asked.
    apply_replies-Step :
        (maps : NodeIndexes) (asked : NodeKeys) (names : List String) (r : List Bool)
        → length r ≡ length keys
        → ((n : String)
            → Member n names
            → (ks : List BobKey) × (js : IndexMap) × (get asked n ≡ some ks)
              × (get maps n ≡ some js)
              × (collect js keys ≡ some ks)
              × Within (length keys) js)
        → Step keys r (apply_replies answers (maps, asked) names r) (λ i key.
          Some names (λ n. (contains_at maps n i ≡ true) × (holds_of (remote n) key ≡ true)))
    unfolding apply_replies apply_reply
    apply_replies-Step maps asked [] r l h =
        Step-cong r _ (λ i k e. (λ f. absurd f, λ s. absurd (s.1))) (Step-refl r)
    apply_replies-Step maps asked (name ∷ names) r l h =
        let (ks, js, a, b, c, w) = h name (inl refl) in
        let one : Step keys r (apply_reply answers name (get asked name) (get maps name) r)
            (λ i key. (contains_at maps name i ≡ true) × (holds_of (remote name) key ≡ true)) =
          rw (a, b, apply_reply, asks name ks) (update_by-Step keys js (remote name) ks r l w c) in
        Step-cong r _
          (λ i k e.
            Some-cons {P = λ n. (contains_at maps n i ≡ true) × (holds_of (remote n) k ≡ true)} name
              names)
          (Step-then r (apply_reply answers name (get asked name) (get maps name) r)
            (apply_replies answers (maps, asked) names) l one
            (λ q m. apply_replies-Step maps asked names q m (λ n k. h n (inr k))))

    Member-get {ℓ} :
        {V : Type ℓ} (xs : List (String × V)) (n : String)
        → Member n (map (λ p. p.0) xs)
        → (v : V) × (get xs n ≡ some v)
    unfolding get
    Member-get [] n m = absurd m
    Member-get ((x, v) ∷ xs) n m = elim (Bool-cases (x == n)) [
      | inl e ↦ (v, rw e refl)
      | inr e ↦ elim m [
        | inl f ↦ absurd (cc ((eq_iff x n).1 (sym f), e))
        | inr k ↦ let (w, g) = Member-get xs n k in (w, rw e g)
      ]
    ]

    get-Member {ℓ} :
        {V : Type ℓ} (xs : List (String × V)) (n : String) (v : V)
        → get xs n ≡ some v
        → Member n (map (λ p. p.0) xs)
    unfolding get
    get-Member [] n v e = absurd (cc)
    get-Member ((x, w) ∷ xs) n v e = elim (Bool-cases (x == n)) [
      | inl f ↦ inl (sym ((eq_iff x n).0 f))
      | inr f ↦ inr (get-Member xs n v (rw f at e))
    ]

    -- All the nodes of a group: what one of them has is found, if it was not before.
    pub collect_remote_exists-Step :
        (maps : NodeIndexes) (r : List Bool)
        → length r ≡ length keys
        → UniqueNames maps
        → ((n : String) (i : ℕ) → contains_at maps n i ≡ true → i < length keys)
        → Completes answers
        → Step keys r (collect_remote_exists answers keys maps r) (λ i key.
          (n : String) × (contains_at maps n i ≡ true) × (holds_of (remote n) key ≡ true))
    unfolding collect_remote_exists ask_gathered
    collect_remote_exists-Step maps r l u w c =
        let (maps', asked, e, g) = gather-lem keys r maps l u w in
        let names = answers.completion (map (λ p. p.0) asked) in
        let (q, d, f) = apply_replies-Step maps' asked names r l (λ n m.
          let (ks, a) = Member-get asked n ((c _ n).0 m) in
          let (js, b, k) = g.requested n ks a in
          (
            ks,
            js,
            a,
            b,
            k,
            Within-contains (length keys) js
                (λ i h. w n i (g.within n i (ap (λ o. holds_place o i) b ∙ h))),
          )) in
        (
          q,
          rw (e, ask_gathered) d,
          Finds-cong keys
              (λ i k a. (
                λ s. elim s [ inl t ↦ inl t | inr (n, m, x) ↦ inr (n, g.within n i x.0, x.1) ],
                λ s. elim s [
                  | inl t ↦ inl t
                  | inr (n, x0, x1) ↦
                      let (b, hb) = get_elem?-lt r i (omega (arith, l, lt-get_elem? keys i k a)) in
                      elim (Bool-cases b) [
                        | inl t ↦ inl (hb ∙ ap some t)
                        | inr t ↦
                            let y : contains_at maps' n i ≡ true =
                              g.kept n i b hb ∙ ground (arith, x0, t) in
                            let (ks, m) = g.covers n i y in
                            inr
                              (n, (c (map (λ p. p.0) asked) n).1 (get-Member asked n ks m), (y, x1))
                      ]
                ],
              ))
              f,
        )
