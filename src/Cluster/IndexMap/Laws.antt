-- ===== src/Cluster/IndexMap/Laws.antt =====
-- Lookups through the places of an `IndexMap` (bob/src/cluster/support_types.rs).
use bob.Prelude.{
  All, Bool, Bool-cases, List, [], any, ap, arith, eqb, eqb_refl, eqb→eq, false, get_elem?, inl,
  inr, length, length-set, not, refl, set, some, subst, suc, sym, true, zero, ℕ, ◌&&◌, ◌+◌, ◌<◌,
  ◌||◌, ◌∙◌, ◌∷◌, ◌≡◌,
}
use bob.Data.{BobKey}
use bob.Backend.Exist.{scatter}
use bob.Backend.Exist.Places.{hits_zip}
use bob.Cluster.IndexMap.{
  IndexMap, where_from, where_not_exists, collect, update_from, update_existence,
  retain_not_existed,
}

abbrev pub contains : IndexMap → ℕ → Bool
contains indexes i = any (λ j. eqb j i) indexes

abbrev pub Within : ℕ → IndexMap → Type 0
Within n indexes = All (λ j. j < n) indexes

pub get_elem?-lt {ℓ} :
    {A : Type ℓ} (xs : List A) (i : ℕ) → i < length xs → (x : A) × (get_elem? xs i ≡ some x)
get_elem?-lt [] i h = absurd (omega (arith, h))
get_elem?-lt (x ∷ xs) zero h = (x, refl)
get_elem?-lt (x ∷ xs) (suc i) h = get_elem?-lt xs i (omega (arith, h))

pub lt-get_elem? {ℓ} :
    {A : Type ℓ} (xs : List A) (i : ℕ) (x : A) → get_elem? xs i ≡ some x → i < length xs
lt-get_elem? [] i x h = absurd (cc)
lt-get_elem? (y ∷ xs) zero x h = omega arith
lt-get_elem? (y ∷ xs) (suc i) x h = omega (arith, lt-get_elem? xs i x h)

pub Within-contains :
    (n : ℕ) (indexes : IndexMap) → ((i : ℕ) → contains indexes i ≡ true → i < n) → Within n indexes
Within-contains n [] h = tt
Within-contains n (j ∷ indexes) h =
    (h j (ground arith), Within-contains n indexes (λ i e. h i (ground arith)))

pub Within-lt :
    {n : ℕ} (indexes : IndexMap) (i : ℕ) → Within n indexes → contains indexes i ≡ true → i < n
Within-lt [] i w h = absurd (cc)
Within-lt (j ∷ indexes) i w h = ground (arith, w.0, Within-lt indexes i w.1)

pub collect-lem :
    (indexes : IndexMap) (keys : List BobKey)
    → Within (length keys) indexes
    → (ks : List BobKey) × (collect indexes keys ≡ some ks)
      × (length ks ≡ length indexes)
      × ((p : BobKey → Bool) (i : ℕ) (k : BobKey)
          → get_elem? keys i ≡ some k
          → hits_zip p ks indexes i ≡ (contains indexes i && p k))
unfolding collect
collect-lem [] keys h = ([], refl, refl, λ p i k e. refl)
collect-lem (j ∷ indexes) keys h =
    let (ks, e, l, f) = collect-lem indexes keys h.1 in
    let (x, g) = get_elem?-lt keys j h.0 in
    (
      x ∷ ks,
      rw (g, e) refl,
      omega (arith, l),
      λ p i k a. elim (Bool-cases (eqb j i)) [
        | inl b ↦
            let c : j ≡ i = eqb→eq j i b in
            let d : x ≡ k = cc (g, a, c) in ground (arith, f p i k a, d, b, ap p d)
        | inr b ↦ ground (arith, f p i k a, b)
      ],
    )

update_from-lem :
    (indexes : IndexMap) (original mapped : List Bool)
    → Within (length original) indexes
    → length mapped ≡ length indexes
    → update_from indexes original mapped ≡ some (scatter mapped indexes original)
unfolding update_from scatter
update_from-lem [] original [] h l = refl
update_from-lem [] original (b ∷ mapped) h l = absurd (omega (arith, l))
update_from-lem (j ∷ indexes) original [] h l = absurd (omega (arith, l))
update_from-lem (j ∷ indexes) original (b ∷ mapped) h l =
    let (old, e) = get_elem?-lt original j h.0 in
    let d = length-set original j (old || b) in
    rw (e, update_from)
      (update_from-lem indexes (set original j (old || b)) mapped
        (subst (λ n. Within n indexes) (sym d) h.1) (omega (arith, l)))

pub update_existence-lem :
    (indexes : IndexMap) (original mapped : List Bool)
    → Within (length original) indexes
    → length mapped ≡ length indexes
    → update_existence indexes original mapped ≡ some (scatter mapped indexes original)
unfolding update_existence
update_existence-lem indexes original mapped h l =
    rw (l, eqb_refl (length indexes)) (update_from-lem indexes original mapped h l)

pub retain_not_existed-lem :
    (indexes : IndexMap) (original : List Bool)
    → Within (length original) indexes
    → (kept : IndexMap) × (retain_not_existed indexes original ≡ some kept)
      × ((i : ℕ) (b : Bool)
          → get_elem? original i ≡ some b
          → contains kept i ≡ (contains indexes i && not b))
      × ((i : ℕ) → contains kept i ≡ true → contains indexes i ≡ true)
unfolding retain_not_existed
retain_not_existed-lem [] original h = ([], refl, λ i b e. refl, λ i e. e)
retain_not_existed-lem (j ∷ indexes) original h =
    let (kept, e, f, s) = retain_not_existed-lem indexes original h.1 in
    let (old, g) = get_elem?-lt original j h.0 in
    elim (Bool-cases old) [
      | inl o ↦ (
        kept,
        rw (g, e, o) refl,
        λ i b a. elim (Bool-cases (eqb j i)) [
          | inl c ↦
              let d : j ≡ i = eqb→eq j i c in
              let u : b ≡ true = cc (g, a, d, o) in ground (arith, f i b a, u)
          | inr c ↦ ground (arith, f i b a, c)
        ],
        λ i a. ground (arith, s i a),
      )
      | inr o ↦ (
        j ∷ kept,
        rw (g, e, o) refl,
        λ i b a. elim (Bool-cases (eqb j i)) [
          | inl c ↦
              let d : j ≡ i = eqb→eq j i c in
              let u : b ≡ false = cc (g, a, d, o) in ground (arith, f i b a, u)
          | inr c ↦ ground (arith, f i b a, c)
        ],
        λ i a. ground (arith, s i),
      )
    ]

where_from-later :
    (ind : ℕ) (items : List Bool) (i : ℕ) → i < ind → contains (where_from ind items) i ≡ false
unfolding where_from
where_from-later ind [] i h = refl
where_from-later ind (true ∷ items) i h = where_from-later (ind + 1) items i (omega arith)
where_from-later ind (false ∷ items) i h =
    ground (arith, where_from-later (ind + 1) items i (omega arith))

contains-where_from :
    (ind : ℕ) (items : List Bool) (i place : ℕ) (b : Bool)
    → get_elem? items i ≡ some b
    → place ≡ ind + i
    → contains (where_from ind items) place ≡ not b
unfolding where_from
contains-where_from ind [] i place b e p = absurd (cc)
contains-where_from ind (true ∷ items) zero place b e p =
    ground (arith, where_from-later (ind + 1) items place (omega (arith, p)))
contains-where_from ind (false ∷ items) zero place b e p = ground arith
contains-where_from ind (true ∷ items) (suc i) place b e p =
    contains-where_from (ind + 1) items i place b e (omega (arith, p))
contains-where_from ind (false ∷ items) (suc i) place b e p =
    ground (arith, contains-where_from (ind + 1) items i place b e (omega (arith, p)))

where_from-Within :
    (ind : ℕ) (items : List Bool) (n : ℕ) → n ≡ ind + length items → Within n (where_from ind items)
unfolding where_from
where_from-Within ind [] n p = tt
where_from-Within ind (true ∷ items) n p = where_from-Within (ind + 1) items n (omega (arith, p))
where_from-Within ind (false ∷ items) n p =
    (omega (arith, p), where_from-Within (ind + 1) items n (omega (arith, p)))

pub where_not_exists-lem :
    (items : List Bool)
    → Within (length items) (where_not_exists items)
      × ((i : ℕ) (b : Bool)
          → get_elem? items i ≡ some b
          → contains (where_not_exists items) i ≡ not b)
unfolding where_not_exists
where_not_exists-lem items = (
  where_from-Within 0 items (length items) (omega arith),
  λ i b e. contains-where_from 0 items i i b e (omega arith),
)

pub length-scatter :
    (answers : List Bool) (indexes : List ℕ) (exist : List Bool)
    → length (scatter answers indexes exist) ≡ length exist
unfolding scatter
length-scatter [] indexes exist = refl
length-scatter (r ∷ answers) [] exist = refl
length-scatter (r ∷ answers) (j ∷ indexes) exist =
    length-scatter answers indexes (set exist j _) ∙ length-set exist j _
