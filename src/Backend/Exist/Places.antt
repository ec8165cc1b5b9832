-- ===== src/Backend/Exist/Places.antt =====
-- Answers put in their keys' places (`exist` of bob-backend/src/core.rs).
use bob.Prelude.{
  Bool, List, Option, [], ap, arith, eqb, false, get_elem?, map, none, refl, set, some, suc, zero,
  ℕ, ◌&&◌, ◌||◌, ◌∙◌, ◌∷◌, ◌≡◌,
}
use bob.Data.{BobKey}
use bob.Backend.Storage.{operation_eq}
use bob.Backend.Exist.{scatter}

-- An answer turned on where the Boolean says so.
abbrev pub or_at : Option Bool → Bool → Option Bool
or_at none b = none
or_at (some a) b = some (a || b)

pub or_at-false : (o : Option Bool) (c b : Bool) → c ≡ false → o ≡ or_at o (c && b)
or_at-false none c b e = refl
or_at-false (some a) c b e = ground (arith, e)

pub or_at-or_at : (o : Option Bool) (a b : Bool) → or_at (or_at o a) b ≡ or_at o (a || b)
or_at-or_at none a b = refl
or_at-or_at (some c) a b = ground arith

-- The value that `exist[ind] |= res` writes.
abbrev turned_on : List Bool → ℕ → Bool → Bool
turned_on xs j b = elim (get_elem? xs j) [ none ↦ b | some old ↦ old || b ]

get_elem?-turned_on :
    (xs : List Bool) (j i : ℕ) (b : Bool)
    → get_elem? (set xs j (turned_on xs j b)) i ≡ or_at (get_elem? xs i) (eqb j i && b)
get_elem?-turned_on [] j i b = refl
get_elem?-turned_on (x ∷ xs) zero zero b = refl
get_elem?-turned_on (x ∷ xs) zero (suc i) b =
    or_at-false (get_elem? xs i) (eqb 0 (suc i)) b (ground arith)
get_elem?-turned_on (x ∷ xs) (suc j) zero b = ground arith
get_elem?-turned_on (x ∷ xs) (suc j) (suc i) b =
    let e : eqb (suc j) (suc i) ≡ eqb j i = ground arith in rw e (get_elem?-turned_on xs j i b)

pub list_ext : (xs ys : List Bool) → ((i : ℕ) → get_elem? xs i ≡ get_elem? ys i) → xs ≡ ys
list_ext [] [] h = refl
list_ext [] (y ∷ ys) h = absurd (cc (h 0))
list_ext (x ∷ xs) [] h = absurd (cc (h 0))
list_ext (x ∷ xs) (y ∷ ys) h =
    let e : x ≡ y = cc (h 0) in rw (e, list_ext xs ys (λ i. h (suc i))) refl

-- Whether a key at this place holds, among paired keys and places.
abbrev pub hits_zip : (BobKey → Bool) → List BobKey → List ℕ → ℕ → Bool
hits_zip p [] js i = false
hits_zip p (k ∷ ks) [] i = false
hits_zip p (k ∷ ks) (j ∷ js) i = (eqb j i && p k) || hits_zip p ks js i

pub get_elem?-scatter :
    (p : BobKey → Bool) (ks : List BobKey) (js : List ℕ) (exist : List Bool) (i : ℕ)
    → get_elem? (scatter (map p ks) js exist) i ≡ or_at (get_elem? exist i) (hits_zip p ks js i)
unfolding scatter
get_elem?-scatter p [] js exist i = or_at-false (get_elem? exist i) false false refl
get_elem?-scatter p (k ∷ ks) [] exist i = or_at-false (get_elem? exist i) false false refl
get_elem?-scatter p (k ∷ ks) (j ∷ js) exist i =
    get_elem?-scatter p ks js (set exist j (turned_on exist j (p k))) i
    ∙ ap (λ o. or_at o (hits_zip p ks js i)) (get_elem?-turned_on exist j i (p k))
    ∙ or_at-or_at (get_elem? exist i) (eqb j i && p k) (hits_zip p ks js i)
