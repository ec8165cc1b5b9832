-- ===== src/Config/Checks.antt =====
-- bob-common/src/configs/validation.rs, and the reasons that the checks of cluster.rs give.
use bob.Prelude.{
  All, Bool, Bool-cases, List, Member, Option, String, [], all, arith, false, if◌then◌else◌, inl,
  inr, map, none, refl, some, subst, sym, true, ℕ, ◌++◌, ◌||◌, ◌∷◌, ◌≡◌,
}
use bob.Map.{Eq}

pub data Reason : Type 0 where
  disk_fields rack_name node_name replica_fields no_nodes no_vdisks : Reason
  invalid_racks invalid_nodes invalid_vdisks : Reason
  rack_duplicate node_bad_uri node_no_port node_duplicate_disk : String → Reason
  duplicate_node duplicate_address duplicate_rack duplicate_in_racks unknown_in_racks :
      String → Reason
  vdisk_no_replicas invalid_vdisk duplicate_id gap_before : ℕ → Reason
  vdisk_duplicate : ℕ → String → String → Reason
  no_node_for : String → ℕ → Reason
  no_disk_for : String → String → ℕ → Reason

-- `Result<(), String>`.
pub data Check : Type 0 where
  valid : Check
  invalid : List Reason → Check

-- `first?; second`
infixl 10 ◌>>◌
abbrev pub ◌>>◌ : Check → Check → Check
valid >> c = c
invalid rs >> c = invalid rs

-- `.map_err(|e| format!("...: {}", e))`
abbrev pub because : Reason → Check → Check
because r valid = valid
because r (invalid rs) = invalid (r ∷ rs)

-- The errors of all elements.
unfoldable pub errors : List Check → List Reason
errors [] = []
errors (valid ∷ cs) = errors cs
errors (invalid rs ∷ cs) = rs ++ errors cs

-- An element is invalid also where it gives no reason.
unfoldable pub aggregate : List Check → Check
unfolding errors
aggregate cs =
    if all (λ c. elim c [ valid ↦ true | invalid rs ↦ false ]) cs
    then valid
    else invalid (errors cs)

pub >>-valid : (a b : Check) → (a >> b) ≡ valid → (a ≡ valid) × (b ≡ valid)
>>-valid valid b h = (refl, h)
>>-valid (invalid rs) b h = cc

pub because-valid : (r : Reason) (c : Check) → because r c ≡ valid → c ≡ valid
because-valid r valid h = refl
because-valid r (invalid rs) h = cc

-- Where an aggregate is valid each element is.
pub aggregate-valid :
    {A : Type 0} (f : A → Check) (xs : List A)
    → aggregate (map f xs) ≡ valid
    → All (λ x. f x ≡ valid) xs
unfolding aggregate
aggregate-valid {A = A} f xs h = go xs (ground arith)
  where
    go :
        (ys : List A)
        → all (λ c. elim c [ valid ↦ true | invalid rs ↦ false ]) (map f ys) ≡ true
        → All (λ x. f x ≡ valid) ys
    go [] h = tt
    go (y ∷ ys) h = (ground arith, go ys (ground arith))

module _ {A : Type 0} ⦃e : Eq A⦄ where
  unfoldable pub contains : List A → A → Bool
  contains [] a = false
  contains (x ∷ xs) a = e.beq x a || contains xs a

  -- The loop over the items; `uniq` are those inserted so far.
  unfoldable pub first_duplicate : List A → List A → Option A
  unfolding contains
  first_duplicate uniq [] = none
  first_duplicate uniq (x ∷ xs) =
      let rest = first_duplicate (x ∷ uniq) xs in if contains uniq x then some x else rest

  unfoldable pub validate_no_duplicates : (A → Reason) → List A → Check
  unfolding first_duplicate
  validate_no_duplicates reason xs = elim (first_duplicate [] xs) [
    | none ↦ valid
    | some x ↦ invalid (reason x ∷ [])
  ]

  -- No item occurs twice.
  abbrev pub Unique : List A → Type 0
  Unique [] = Unit
  Unique (x ∷ xs) = (¬ Member x xs) × Unique xs

  contains-Member : (xs : List A) (a : A) → contains xs a ≡ true → Member a xs
  unfolding contains
  contains-Member [] a h = cc
  contains-Member (x ∷ xs) a h = elim (Bool-cases (e.beq x a)) [
    | inl f ↦ inl (sym ((e.beq_iff x a).0 f))
    | inr f ↦ inr (contains-Member xs a (rw f at h))
  ]

  Member-contains : (xs : List A) (a : A) → Member a xs → contains xs a ≡ true
  unfolding contains
  Member-contains [] a h = absurd h
  Member-contains (x ∷ xs) a (inl f) = rw ((e.beq_iff x a).1 (sym f)) refl
  Member-contains (x ∷ xs) a (inr h) = ground (arith, Member-contains xs a h)

  first_duplicate-Unique :
      (uniq xs : List A)
      → first_duplicate uniq xs ≡ none
      → Unique xs × ((a : A) → Member a xs → ¬ Member a uniq)
  unfolding first_duplicate
  first_duplicate-Unique uniq [] h = (tt, λ a m. absurd m)
  first_duplicate-Unique uniq (x ∷ xs) h = elim (Bool-cases (contains uniq x)) [
    | inl seen ↦ absurd (ground arith)
    | inr new ↦
        let ih = first_duplicate-Unique (x ∷ uniq) xs (rw new at h) in
        ((λ m. ih.1 x m (inl refl), ih.0), later new ih.1)
  ]
    where
      later :
          contains uniq x ≡ false
          → ((a : A) → Member a xs → ¬ Member a (x ∷ uniq))
          → (a : A) → Member a (x ∷ xs)
          → ¬ Member a uniq
      later new ih a (inl f) u =
          let seen = Member-contains uniq x (subst (λ t. Member t uniq) f u) in
          absurd (ground arith)
      later new ih a (inr m) u = ih a m (inr u)

  -- Items that pass the check are all different.
  pub validate_no_duplicates-Unique :
      (reason : A → Reason) (xs : List A) → validate_no_duplicates reason xs ≡ valid → Unique xs
  unfolding validate_no_duplicates
  validate_no_duplicates-Unique reason xs h = (first_duplicate-Unique [] xs (ground arith)).0
