-- ===== src/Pearl/Group/Writing.antt =====
-- Where `put` of a group writes (bob-backend/src/pearl/group.rs).
pub mod Placed
use bob.Prelude.{
  Bool-cases, List, Member, Option, [], arith, get_elem?, if◌then◌else◌, inl, inr, ltb, none, refl,
  some, subst, suc, true, ℕ, ◌+◌, ◌∷◌, ◌≡◌, ◌≤◌,
}
use bob.Pearl.Holder.{Holder, gets_into_interval}
use bob.Pearl.Group.{later_start, find_actual_from, find_actual_holder}

plus_zero : (n : ℕ) → n + 0 ≡ n
plus_zero n = omega arith

module _ {S : Type 0} (timestamp : ℕ) where
  -- The best so far, after a holder more.
  abbrev considered : Option (ℕ × Holder S) → ℕ → Holder S → Option (ℕ × Holder S)
  considered best ind h =
      if gets_into_interval h timestamp then some (later_start best (ind, h)) else best

  -- The result of the search, against what it started from and what it went over.
  record Searched (P : ℕ → Holder S → Type 0) (best : Option (ℕ × Holder S)) (hs : List (Holder S))
      (found : Option (ℕ × Holder S)) : Type 0 where
    pub at_place :
        (i : ℕ) (h : Holder S)
        → found ≡ some (i, h)
        → P i h × (gets_into_interval h timestamp ≡ true)
    pub latest :
        (k : Holder S)
        → Member k hs
        → gets_into_interval k timestamp ≡ true
        → (i : ℕ) × (h : Holder S) × (found ≡ some (i, h)) × (k.start_timestamp ≤ h.start_timestamp)
    pub since :
        (j : ℕ) (b : Holder S)
        → best ≡ some (j, b)
        → (i : ℕ) × (h : Holder S) × (found ≡ some (i, h)) × (b.start_timestamp ≤ h.start_timestamp)

  later_start-le :
      (best : Option (ℕ × Holder S)) (ind : ℕ) (h : Holder S)
      → (h.start_timestamp ≤ (later_start best (ind, h)).1.start_timestamp)
        × ((j : ℕ) (b : Holder S)
            → best ≡ some (j, b)
            → b.start_timestamp ≤ (later_start best (ind, h)).1.start_timestamp)
  later_start-le none ind h = (omega arith, λ j b e. absurd (cc e))
  later_start-le (some (i, k)) ind h = elim (Bool-cases (ltb k.start_timestamp h.start_timestamp)) [
    | inl e ↦ rw e (omega arith, λ j b f. let q : k ≡ b = cc f in rw (← q) (ground (arith, e)))
    | inr e ↦ rw e (ground (arith, e), λ j b f. let q : k ≡ b = cc f in rw (← q) (omega arith))
  ]

  later_start-one :
      (Q : ℕ → Holder S → Type 0) (best : Option (ℕ × Holder S)) (ind : ℕ) (h : Holder S)
      → ((j : ℕ) (b : Holder S) → best ≡ some (j, b) → Q j b)
      → Q ind h
      → Q (later_start best (ind, h)).0 (later_start best (ind, h)).1
  later_start-one Q none ind h f q = q
  later_start-one Q (some (i, k)) ind h f q =
      elim (Bool-cases (ltb k.start_timestamp h.start_timestamp)) [
        | inl e ↦ rw e q
        | inr e ↦ rw e (f i k refl)
      ]

  shift :
      (P : ℕ → Holder S → Type 0) (ind j : ℕ) (k : Holder S) → P (ind + suc j) k → P (ind + 1 + j) k
  shift P ind j k p = let z : ind + suc j ≡ ind + 1 + j = omega arith in subst (λ n. P n k) z p

  find_actual_from-Searched :
      (P : ℕ → Holder S → Type 0) (ind : ℕ) (best : Option (ℕ × Holder S)) (hs : List (Holder S))
      → ((j : ℕ) (b : Holder S)
          → best ≡ some (j, b)
          → P j b × (gets_into_interval b timestamp ≡ true))
      → ((j : ℕ) (k : Holder S) → get_elem? hs j ≡ some k → P (ind + j) k)
      → Searched P best hs (find_actual_from timestamp ind best hs)
  unfolding find_actual_from
  find_actual_from-Searched P ind best [] f g = record {
    at_place = f;
    latest = λ k m. absurd m;
    since = λ j b e. (j, b, e, omega arith);
  }
  find_actual_from-Searched P ind best (h ∷ hs) f g =
      elim (Bool-cases (gets_into_interval h timestamp)) [
        | inr e ↦
            let r : Searched P best hs (find_actual_from timestamp (ind + 1) best hs) =
              find_actual_from-Searched P (ind + 1) best hs f
                (λ j k q. shift P ind j k (g (suc j) k q)) in
            rw e (record {
              at_place = r.at_place;
              latest = λ k m t. elim m [ inl q ↦ absurd (cc (q, t, e)) | inr n ↦ r.latest k n t ];
              since = r.since;
            })
        | inl e ↦
            let one = later_start best (ind, h) in
            let r : Searched P (some one) hs (find_actual_from timestamp (ind + 1) (some one) hs) =
              find_actual_from-Searched P (ind + 1) (some one) hs
                (λ j b q.
                  let z : one ≡ (j, b) = cc q in
                  subst
                    (λ (p : ℕ × Holder S). P p.0 p.1 × (gets_into_interval p.1 timestamp ≡ true)) z
                    (later_start-one (λ i k. P i k × (gets_into_interval k timestamp ≡ true)) best
                      ind h f (subst (λ n. P n h) (plus_zero ind) (g 0 h refl), e)))
                (λ j k q. shift P ind j k (g (suc j) k q)) in
            rw e (record {
              at_place = r.at_place;
              latest = λ k m t. elim m [
                | inl q ↦
                    let (i, x, a, le) = r.since one.0 one.1 refl in
                    (i, x, a, rw q (omega (arith, le, (later_start-le best ind h).0)))
                | inr n ↦ r.latest k n t
              ];
              since = λ j b q.
                  let (i, x, a, le) = r.since one.0 one.1 refl in
                  (i, x, a, omega (arith, le, (later_start-le best ind h).1 j b q));
            })
      ]

  -- The search for a holder to write to finds one exactly if the timestamp falls into the period
  -- of one; it is at its place in the list, the timestamp falls into its period, and no such holder
  -- starts later.
  pub find_actual_holder-lem :
      (holders : List (Holder S))
      → ((i : ℕ) (h : Holder S)
          → find_actual_holder holders timestamp ≡ some (i, h)
          → (get_elem? holders i ≡ some h) × (gets_into_interval h timestamp ≡ true))
        × ((k : Holder S)
            → Member k holders
            → gets_into_interval k timestamp ≡ true
            → (i : ℕ) × (h : Holder S) × (find_actual_holder holders timestamp ≡ some (i, h))
              × (k.start_timestamp ≤ h.start_timestamp))
  unfolding find_actual_holder
  find_actual_holder-lem holders =
      let r =
        find_actual_from-Searched (λ i h. get_elem? holders i ≡ some h) 0 none holders
          (λ j b e. absurd (cc e))
          (λ j k q.
            let z : j ≡ 0 + j = omega arith in subst (λ n. get_elem? holders n ≡ some k) z q) in
      (r.at_place, r.latest)
