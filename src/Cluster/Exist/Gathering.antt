-- ===== src/Cluster/Exist/Gathering.antt =====
-- The keys that are left for each node of a group (`collect_remote_exists` of
-- bob/src/cluster/quorum.rs).
use bob.Prelude.{
  Bool, Bool-cases, List, String, [], ap, eq_iff, false, get_elem?, inl, inr, length, none, not,
  refl, some, subst, sym, true, ℕ, ◌&&◌, ◌<◌, ◌==◌, ◌∙◌, ◌∷◌, ◌≡◌, ◌⊎◌,
}
use bob.Data.{BobKey}
use bob.Map.{get, insert, string_eq, get-insert}
use bob.Cluster.IndexMap.{IndexMap, collect}
use bob.Cluster.IndexMap.Laws.{
  contains, Within, Within-contains, collect-lem, retain_not_existed-lem,
}
use bob.Cluster.Exist.{NodeIndexes, NodeKeys, gather_one, gather}
use bob.Cluster.Exist.Maps.{contains_at, holds_place, UniqueNames}

head_of {ℓ} :
    {V : Type ℓ} (maps : List (String × V)) (name n : String) (v : V)
    → name ≡ n
    → get ((name, v) ∷ maps) n ≡ some v
unfolding get
head_of maps name n v e = rw ((eq_iff name n).1 e) refl

tail_of {ℓ} :
    {V : Type ℓ} (maps : List (String × V)) (name n : String) (v : V)
    → (name == n) ≡ false
    → get ((name, v) ∷ maps) n ≡ get maps n
unfolding get
tail_of maps name n v e = rw e refl

places_head :
    (maps : NodeIndexes) (name n : String) (js : IndexMap) (i : ℕ)
    → name ≡ n
    → contains_at ((name, js) ∷ maps) n i ≡ contains js i
places_head maps name n js i e = ap (λ o. holds_place o i) (head_of maps name n js e)

places_tail :
    (maps : NodeIndexes) (name n : String) (js : IndexMap) (i : ℕ)
    → (name == n) ≡ false
    → contains_at ((name, js) ∷ maps) n i ≡ contains_at maps n i
places_tail maps name n js i e = ap (λ o. holds_place o i) (tail_of maps name n js e)

same_or_other : (name n : String) → (name ≡ n) ⊎ ((name == n) ≡ false)
same_or_other name n = elim (Bool-cases (name == n)) [
  | inl e ↦ inl ((eq_iff name n).0 e)
  | inr e ↦ inr e
]

places_later :
    (maps : NodeIndexes) (name n : String) (js : IndexMap) (i : ℕ)
    → get maps name ≡ none
    → contains_at maps n i ≡ true
    → contains_at ((name, js) ∷ maps) n i ≡ true
places_later maps name n js i f g = elim (same_or_other name n) [
  | inl e ↦
      let h : get maps n ≡ none = subst (λ x. get maps x ≡ none) e f in
      absurd (cc (sym (ap (λ o. holds_place o i) h) ∙ g))
  | inr e ↦ places_tail maps name n js i e ∙ g
]

module _ (keys : List BobKey) (r : List Bool) where
  -- The maps without what was found, and the keys at the places that are left, of each node that
  -- has any.
  pub record Gathers (maps maps' : NodeIndexes) (asked : NodeKeys) : Type 0 where
    pub kept :
        (n : String) (i : ℕ) (b : Bool)
        → get_elem? r i ≡ some b
        → contains_at maps' n i ≡ (contains_at maps n i && not b)
    pub within : (n : String) (i : ℕ) → contains_at maps' n i ≡ true → contains_at maps n i ≡ true
    pub requested :
        (n : String) (ks : List BobKey)
        → get asked n ≡ some ks
        → (js : IndexMap) × (get maps' n ≡ some js) × (collect js keys ≡ some ks)
    pub absent : (n : String) → get maps n ≡ none → get asked n ≡ none
    pub covers :
        (n : String) (i : ℕ)
        → contains_at maps' n i ≡ true
        → (ks : List BobKey) × (get asked n ≡ some ks)

  module _ (maps maps' : NodeIndexes) (asked : NodeKeys) (name : String) (js kept : IndexMap)
      (free : get maps name ≡ none)
      (left : (i : ℕ) (b : Bool)
        → get_elem? r i ≡ some b
        → contains kept i ≡ (contains js i && not b))
      (only : (i : ℕ) → contains kept i ≡ true → contains js i ≡ true)
      (g : Gathers maps maps' asked) where
    kept_places :
        (n : String) (i : ℕ) (b : Bool)
        → get_elem? r i ≡ some b
        → contains_at ((name, kept) ∷ maps') n i ≡ (contains_at ((name, js) ∷ maps) n i && not b)
    kept_places n i b e = elim (same_or_other name n) [
      | inl f ↦
          places_head maps' name n kept i f
          ∙ left i b e
          ∙ ap (λ c. c && not b) (sym (places_head maps name n js i f))
      | inr f ↦
          places_tail maps' name n kept i f
          ∙ g.kept n i b e
          ∙ ap (λ c. c && not b) (sym (places_tail maps name n js i f))
    ]

    within_places :
        (n : String) (i : ℕ)
        → contains_at ((name, kept) ∷ maps') n i ≡ true
        → contains_at ((name, js) ∷ maps) n i ≡ true
    within_places n i e = elim (same_or_other name n) [
      | inl f ↦
          places_head maps name n js i f ∙ only i (sym (places_head maps' name n kept i f) ∙ e)
      | inr f ↦
          places_tail maps name n js i f
          ∙ g.within n i (sym (places_tail maps' name n kept i f) ∙ e)
    ]

    later_none :
        (n : String)
        → get ((name, js) ∷ maps) n ≡ none
        → ((name == n) ≡ false) × (get asked n ≡ none)
    later_none n e = elim (same_or_other name n) [
      | inl f ↦ absurd (cc (sym (head_of maps name n js f) ∙ e))
      | inr f ↦ (f, g.absent n (sym (tail_of maps name n js f) ∙ e))
    ]

    -- Where nothing is left for the node, it is not asked.
    Gathers-empty : kept ≡ [] → Gathers ((name, js) ∷ maps) ((name, kept) ∷ maps') asked
    Gathers-empty z = record {
      kept = kept_places;
      within = within_places;
      requested = λ n ks e.
          let (js', p, q) = g.requested n ks e in
          elim (same_or_other name n) [
            | inl f ↦ absurd (cc (g.absent n (subst (λ x. get maps x ≡ none) f free), e))
            | inr f ↦ (js', tail_of maps' name n kept f ∙ p, q)
          ];
      absent = λ n e. (later_none n e).1;
      covers = λ n i e. elim (same_or_other name n) [
        | inl f ↦
            let c : contains kept i ≡ true = sym (places_head maps' name n kept i f) ∙ e in
            absurd (cc (z, c))
        | inr f ↦ g.covers n i (sym (places_tail maps' name n kept i f) ∙ e)
      ];
    }

    Gathers-asked :
        (keys' : List BobKey)
        → collect kept keys ≡ some keys'
        → Gathers ((name, js) ∷ maps) ((name, kept) ∷ maps') (insert asked name keys')
    Gathers-asked keys' c = record {
      kept = kept_places;
      within = within_places;
      requested = λ n ks e. elim (same_or_other name n) [
        | inl f ↦
            let h : get (insert asked name keys') n ≡ some keys' =
              rw (get-insert asked name n keys', (eq_iff name n).1 f) refl in
            let same : keys' ≡ ks = cc (h, e) in
            (kept, head_of maps' name n kept f, c ∙ ap some same)
        | inr f ↦
            let h : get (insert asked name keys') n ≡ get asked n =
              rw (get-insert asked name n keys', f) refl in
            let (js', p, q) = g.requested n ks (sym h ∙ e) in
            (js', tail_of maps' name n kept f ∙ p, q)
      ];
      absent = λ n e. let (f, h) = later_none n e in rw (get-insert asked name n keys', f) h;
      covers = λ n i e. elim (same_or_other name n) [
        | inl f ↦ (keys', rw (get-insert asked name n keys', (eq_iff name n).1 f) refl)
        | inr f ↦
            let (ks, h) = g.covers n i (sym (places_tail maps' name n kept i f) ∙ e) in
            (ks, rw (get-insert asked name n keys', f) h)
      ];
    }

  gather_one-lem :
      (maps maps' : NodeIndexes) (asked : NodeKeys) (name : String) (js kept : IndexMap)
      → get maps name ≡ none
      → ((i : ℕ) (b : Bool) → get_elem? r i ≡ some b → contains kept i ≡ (contains js i && not b))
      → ((i : ℕ) → contains kept i ≡ true → contains js i ≡ true)
      → Gathers maps maps' asked
      → Within (length keys) kept
      → (maps'' : NodeIndexes) × (asked' : NodeKeys) × (gather_one name keys
            (some kept)
            (some (maps', asked))
          ≡ some (maps'', asked'))
        × Gathers ((name, js) ∷ maps) maps'' asked'
  gather_one-lem maps maps' asked name js [] free left only g w = (
    (name, []) ∷ maps',
    asked,
    refl,
    Gathers-empty maps maps' asked name js [] free left only g refl,
  )
  gather_one-lem maps maps' asked name js (k ∷ kept) free left only g w =
      let (ks, c, l, f) = collect-lem (k ∷ kept) keys w in
      (
        (name, k ∷ kept) ∷ maps',
        insert asked name ks,
        rw c refl,
        Gathers-asked maps maps' asked name js (k ∷ kept) free left only g ks c,
      )

  Gathers-none : Gathers [] [] []
  unfolding get
  Gathers-none = record {
    kept = λ n i b e. refl;
    within = λ n i e. e;
    requested = λ n ks e. absurd (cc e);
    absent = λ n e. refl;
    covers = λ n i e. absurd (cc e);
  }

  pub gather-lem :
      (maps : NodeIndexes)
      → length r ≡ length keys
      → UniqueNames maps
      → ((n : String) (i : ℕ) → contains_at maps n i ≡ true → i < length keys)
      → (maps' : NodeIndexes) × (asked : NodeKeys) × (gather r keys maps ≡ some (maps', asked))
        × Gathers maps maps' asked
  unfolding gather
  gather-lem [] l u w = ([], [], refl, Gathers-none)
  gather-lem ((name, js) ∷ maps) l u w =
      let (maps', asked, e, g) =
        gather-lem maps l u.1 (λ n i h. w n i (places_later maps name n js i u.0 h)) in
      let inside : Within (length keys) js =
        Within-contains (length keys) js
          (λ i h. w name i (places_head maps name name js i refl ∙ h)) in
      let (kept, f, left, only) =
        retain_not_existed-lem js r (subst (λ n. Within n js) (sym l) inside) in
      let (maps'', asked', h, k) = gather_one-lem maps maps' asked name js kept u.0 left only g (
        Within-contains (length keys) kept
          (λ i h. w name i (places_head maps name name js i refl ∙ only i h))) in
      (maps'', asked', rw (f, e) h, k)
