-- ===== src/Cluster/Exist/Steps.antt =====
-- What one answer, put in place, adds to the result of `exist` (bob/src/cluster/quorum.rs).
use bob.Prelude.{
  Bool, List, Option, ap, arith, false, get_elem?, inl, inr, length, length-map, map, none, refl,
  some, subst, sym, true, ℕ, ◌&&◌, ◌||◌, ◌↔◌, ◌∙◌, ◌≡◌, ◌⊎◌,
}
use bob.Data.{BobKey}
use bob.Error.{Result, ok, err}
use bob.Cluster.IndexMap.{IndexMap, collect}
use bob.Cluster.IndexMap.Laws.{
  contains, Within, collect-lem, update_existence-lem, length-scatter, get_elem?-lt, lt-get_elem?,
}
use bob.Backend.Exist.{scatter}
use bob.Backend.Exist.Places.{or_at, hits_zip, get_elem?-scatter}
use bob.Backend.Exist.Grouping.{holds_of, reply_of}
use bob.Cluster.Exist.{Answers, update_by, ask_at}

abbrev pub IsFound : List Bool → ℕ → Type 0
IsFound result i = get_elem? result i ≡ some true

pub iff_trans : {A B C : Type 0} → A ↔ B → B ↔ C → A ↔ C
iff_trans f g = (λ a. g.0 (f.0 a), λ c. f.1 (g.1 c))

or_at-found :
    {o : Option Bool} (p : Option Bool) (b hit c d : Bool)
    → p ≡ some b
    → hit ≡ (c && d)
    → o ≡ or_at p hit
    → (o ≡ some true) ↔ ((p ≡ some true) ⊎ ((c ≡ true) × (d ≡ true)))
or_at-found none b hit c d e f g = absurd (cc)
or_at-found (some a) b hit c d e f g = rw (g, f) (decided a c d)
  where
    decided :
        (a c d : Bool)
        → (some (a || (c && d)) ≡ some true) ↔ ((some a ≡ some true) ⊎ ((c ≡ true) × (d ≡ true)))
    decided true c d = (λ e. inl refl, λ e. refl)
    decided false true true = (λ e. inr (refl, refl), λ e. refl)
    decided false true false =
        (λ e. absurd (cc e), λ s. elim s [ inl t ↦ t | inr t ↦ absurd (cc (t.1)) ])
    decided false false d =
        (λ e. absurd (cc e), λ s. elim s [ inl t ↦ t | inr t ↦ absurd (cc (t.0)) ])

-- `after` has, with the keys found in `before`, those that the relation `more` holds of.
pub record Finds (keys : List BobKey) (before after : List Bool) (more : ℕ → BobKey → Type 0)
    : Type 0 where
  pub same_length : length after ≡ length before
  pub found :
      (i : ℕ) (key : BobKey)
      → get_elem? keys i ≡ some key
      → IsFound after i ↔ (IsFound before i ⊎ more i key)

-- A step that does not panic, from a result with a place for each key.
abbrev pub Step : List BobKey → List Bool → Option (List Bool) → (ℕ → BobKey → Type 0) → Type 0
Step keys before o more = (after : List Bool) × (o ≡ some after) × Finds keys before after more

module _ (keys : List BobKey) where
  pub Finds-refl : (r : List Bool) → Finds keys r r (λ i k. ⊥)
  Finds-refl r = record {
    same_length = refl;
    found = λ i k e. (inl, λ s. elim s [ inl f ↦ f | inr f ↦ absurd f ]);
  }

  pub Finds-trans :
      {p q r : List Bool} {F G : ℕ → BobKey → Type 0}
      → Finds keys p q F
      → Finds keys q r G
      → Finds keys p r (λ i k. F i k ⊎ G i k)
  Finds-trans f g = record {
    same_length = g.same_length ∙ f.same_length;
    found = λ i k e. (
      λ s. elim ((g.found i k e).0 s) [
        | inl t ↦ elim ((f.found i k e).0 t) [ inl u ↦ inl u | inr u ↦ inr (inl u) ]
        | inr t ↦ inr (inr t)
      ],
      λ s. elim s [
        | inl t ↦ (g.found i k e).1 (inl ((f.found i k e).1 (inl t)))
        | inr t ↦ elim t [
          | inl u ↦ (g.found i k e).1 (inl ((f.found i k e).1 (inr u)))
          | inr u ↦ (g.found i k e).1 (inr u)
        ]
      ],
    );
  }

  -- Another description of what is added.
  pub Finds-cong :
      {p q : List Bool} {F G : ℕ → BobKey → Type 0}
      → ((i : ℕ) (key : BobKey)
          → get_elem? keys i ≡ some key
          → (IsFound p i ⊎ F i key) ↔ (IsFound p i ⊎ G i key))
      → Finds keys p q F
      → Finds keys p q G
  Finds-cong h f = record {
    same_length = f.same_length;
    found = λ i k e. iff_trans (f.found i k e) (h i k e);
  }

  pub update_by-Step :
      (indexes : IndexMap) (present : Result (BobKey → Bool)) (ks : List BobKey) (r : List Bool)
      → length r ≡ length keys
      → Within (length keys) indexes
      → collect indexes keys ≡ some ks
      → Step keys r
          (update_by indexes (reply_of present ks) r)
          (λ i key. (contains indexes i ≡ true) × (holds_of present key ≡ true))
  unfolding update_by
  update_by-Step indexes (err x) ks r l w c = (
    r,
    refl,
    Finds-cong
        (λ i k e. (
          λ s. elim s [ inl t ↦ inl t | inr t ↦ absurd t ],
          λ s. elim s [ inl t ↦ inl t | inr t ↦ absurd (cc (t.1)) ],
        ))
        (Finds-refl r),
  )
  update_by-Step indexes (ok p) ks r l w c =
      let (ks', c', m, f) = collect-lem indexes keys w in
      let same : ks ≡ ks' = cc (c, c') in
      (
        scatter (map p ks) indexes r,
        update_existence-lem indexes r (map p ks) (subst (λ n. Within n indexes) (sym l) w)
            (length-map p ks ∙ ap length same ∙ m),
        record {
          same_length = length-scatter (map p ks) indexes r;
          found = λ i k e.
              let (b, g) = get_elem?-lt r i (omega (arith, l, lt-get_elem? keys i k e)) in
              or_at-found (get_elem? r i) b (hits_zip p ks indexes i) (contains indexes i) (p k) g
                (ap (λ xs. hits_zip p xs indexes i) same ∙ f p i k e)
                (get_elem?-scatter p ks indexes r i);
        },
      )

  module _ (r : List Bool) (l : length r ≡ length keys) where
    pub ask_at-Step :
        (answers : Answers) (ask : List BobKey → Result (List Bool)) (indexes : IndexMap)
        (present : Result (BobKey → Bool))
        → ((ks : List BobKey) → ask ks ≡ reply_of present ks)
        → Within (length keys) indexes
        → Step keys r
            (ask_at answers ask indexes (collect indexes keys) r)
            (λ i key. (contains indexes i ≡ true) × (holds_of present key ≡ true))
    unfolding ask_at
    ask_at-Step answers ask indexes present h w =
        let (ks, c, m, f) = collect-lem indexes keys w in
        rw (c, ask_at, h ks) (update_by-Step indexes present ks r l w c)
