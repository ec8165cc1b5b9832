-- ===== src/Map.antt =====
-- The standard library's `HashMap`: an association list with one entry for each key. The order in
-- which a `HashMap` is walked is not specified, and the order of the list stands for it.
use bob.Prelude.{
  Bool, List, Option, String, [], arith, eq_iff, eqb, eqb_refl, eqb→eq, false, if◌then◌else◌, none,
  refl, some, subst, true, ℕ, ◌&&◌, ◌==◌, ◌↔◌, ◌∷◌, ◌≡◌,
}

pub record Eq {ℓ} (A : Type ℓ) : Type ℓ where
  pub beq : A → A → Bool
  pub beq_iff : (a b : A) → (beq a b ≡ true) ↔ (a ≡ b)

pub nat_iff : (a b : ℕ) → (eqb a b ≡ true) ↔ (a ≡ b)
nat_iff a b = (eqb→eq a b, λ e. subst (λ c. eqb a c ≡ true) e (eqb_refl a))

instance abbrev pub nat_eq : Eq ℕ
nat_eq = record { beq = eqb; beq_iff = nat_iff }

instance abbrev pub string_eq : Eq String
string_eq = record { beq = ◌==◌; beq_iff = eq_iff }

abbrev pub bytes_beq : List ℕ → List ℕ → Bool
bytes_beq [] [] = true
bytes_beq [] (b ∷ bs) = false
bytes_beq (a ∷ xs) [] = false
bytes_beq (a ∷ xs) (b ∷ bs) = eqb a b && bytes_beq xs bs

pub bytes_iff : (a b : List ℕ) → (bytes_beq a b ≡ true) ↔ (a ≡ b)
bytes_iff [] [] = (λ h. refl, λ h. refl)
bytes_iff [] (b ∷ bs) = (λ h. cc, λ h. cc)
bytes_iff (a ∷ xs) [] = (λ h. cc, λ h. cc)
bytes_iff (a ∷ xs) (b ∷ ys) =
    (λ h. ground (arith, bytes_iff xs ys), λ h. ground (arith, bytes_iff xs ys))

instance abbrev pub bytes_eq : Eq (List ℕ)
bytes_eq = record { beq = bytes_beq; beq_iff = bytes_iff }

module _ {ℓ κ} {K : Type ℓ} {V : Type κ} ⦃e : Eq K⦄ where
  unfoldable pub get : List (K × V) → K → Option V
  get [] k = none
  get ((j, v) ∷ m) k = if e.beq j k then some v else get m k

  unfoldable pub insert : List (K × V) → K → V → List (K × V)
  insert [] k v = (k, v) ∷ []
  insert ((j, w) ∷ m) k v = if e.beq j k then (k, v) ∷ m else (j, w) ∷ insert m k v

  unfoldable pub remove : List (K × V) → K → List (K × V)
  remove [] k = []
  remove ((j, w) ∷ m) k = let rest = remove m k in if e.beq j k then rest else (j, w) ∷ rest

  pub get-insert :
      (m : List (K × V)) (k j : K) (v : V)
      → get (insert m k v) j ≡ (if e.beq k j then some v else get m j)
  unfolding get insert
  get-insert [] k j v = refl
  get-insert ((i, w) ∷ m) k j v =
      ground (arith, e.beq_iff k j, e.beq_iff i k, e.beq_iff i j, get-insert m k j v)

  pub get-remove :
      (m : List (K × V)) (k j : K) → get (remove m k) j ≡ (if e.beq k j then none else get m j)
  unfolding get remove
  get-remove [] k j = ground arith
  get-remove ((i, w) ∷ m) k j =
      ground (arith, e.beq_iff k j, e.beq_iff i k, e.beq_iff i j, get-remove m k j)

  -- A value put in place of the one of its key, at the head of the list and further down.
  pub insert-head :
      (m : List (K × V)) (j k : K) (w : V) (f : Option V → V)
      → e.beq j k ≡ true
      → insert ((j, w) ∷ m) k (f (get ((j, w) ∷ m) k)) ≡ (k, f (some w)) ∷ m
  unfolding get insert
  insert-head m j k w f h = rw h refl

  pub insert-tail :
      (m : List (K × V)) (j k : K) (w : V) (f : Option V → V)
      → e.beq j k ≡ false
      → insert ((j, w) ∷ m) k (f (get ((j, w) ∷ m) k)) ≡ (j, w) ∷ insert m k (f (get m k))
  unfolding get insert
  insert-tail m j k w f h = rw h refl

pub beq_refl {ℓ} : {K : Type ℓ} ⦃e : Eq K⦄ (k : K) → e.beq k k ≡ true
beq_refl ⦃e⦄ k = (e.beq_iff k k).1 refl

pub ruleset map_laws = (get-insert, get-remove, beq_refl)
