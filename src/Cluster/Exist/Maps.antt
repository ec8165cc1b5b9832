-- ===== src/Cluster/Exist/Maps.antt =====
-- The maps by node of `exist`, and the places in them (`group_by_nodes` of
-- bob/src/cluster/quorum.rs).
use bob.Prelude.{
  Bool, Bool-cases, List, Member, Option, Option-cases, String, [], any, ap, arith, eq_iff, eqb,
  false, inl, inr, is_some, none, refl, some, subst, ℕ, ◌&&◌, ◌++◌, ◌==◌, ◌||◌, ◌∷◌, ◌≡◌,
}
use bob.Map.{get, insert, string_eq, get-insert}
use bob.Cluster.IndexMap.{IndexMap}
use bob.Cluster.IndexMap.Laws.{contains}
use bob.Cluster.Exist.{NodeIndexes, Groups, pushed, place_remote}

abbrev pub holds_place : Option IndexMap → ℕ → Bool
holds_place none i = false
holds_place (some indexes) i = contains indexes i

-- Whether the node has the place in its map.
abbrev pub contains_at : NodeIndexes → String → ℕ → Bool
contains_at maps name i = holds_place (get maps name) i

pub contains-append :
    (xs : IndexMap) (j i : ℕ) → contains (xs ++ j ∷ []) i ≡ (contains xs i || eqb j i)
contains-append [] j i = ground arith
contains-append (x ∷ xs) j i = ground (arith, contains-append xs j i)

pub contains-pushed :
    (j i : ℕ) (o : Option IndexMap) → contains (pushed j o) i ≡ (holds_place o i || eqb j i)
contains-pushed j i none = ground arith
contains-pushed j i (some xs) = contains-append xs j i

abbrev pub at : Groups → String → ℕ → Bool
at g name i = contains_at g.primary name i || contains_at g.secondary name i

pub contains_at-pushed :
    (maps : NodeIndexes) (name n : String) (j i : ℕ)
    → contains_at (insert maps name (pushed j (get maps name))) n i
      ≡ (contains_at maps n i || ((name == n) && eqb j i))
contains_at-pushed maps name n j i = elim (Bool-cases (name == n)) [
  | inl e ↦
      let f : name ≡ n = (eq_iff name n).0 e in
      rw (get-insert maps name n (pushed j (get maps name)), e, f)
        (contains-pushed j i (get maps n))
  | inr e ↦ rw (get-insert maps name n (pushed j (get maps name)), e) (ground arith)
]

pub place_remote-lem :
    (index : ℕ) (name : String) (g : Groups) (n : String) (i : ℕ)
    → at (place_remote index name (get g.primary name) g) n i
      ≡ (at g n i || ((name == n) && eqb index i))
unfolding place_remote
place_remote-lem index name g n i = elim (Option-cases (get g.primary name)) [
  | inl e ↦ rw (e, place_remote) (ground (arith, contains_at-pushed g.secondary name n index i))
  | inr (js, e) ↦
      rw (e, place_remote) (ground (arith, e, contains_at-pushed g.primary name n index i))
]

-- At most one entry for each name.
abbrev pub UniqueNames {ℓ} : {V : Type ℓ} → List (String × V) → Type ℓ
UniqueNames [] = Unit
UniqueNames ((name, v) ∷ maps) = (get maps name ≡ none) × UniqueNames maps

pub UniqueNames-insert {ℓ} :
    {V : Type ℓ} (maps : List (String × V)) (name : String) (v : V)
    → UniqueNames maps
    → UniqueNames (insert maps name v)
unfolding insert get
UniqueNames-insert [] name v u = (refl, tt)
UniqueNames-insert ((n, w) ∷ maps) name v u = elim (Bool-cases (n == name)) [
  | inl e ↦
      let f : n ≡ name = (eq_iff n name).0 e in rw e (subst (λ x. get maps x ≡ none) f u.0, u.1)
  | inr e ↦
      let f : (name == n) ≡ false = ground (arith, eq_iff n name, eq_iff name n) in
      rw e (rw (get-insert maps name n v, f) u.0, UniqueNames-insert maps name v u.1)
]

pub record IsGrouped (g : Groups) : Type 0 where
  pub primary : UniqueNames g.primary
  pub secondary : UniqueNames g.secondary

pub place_remote-IsGrouped :
    (index : ℕ) (name : String) (o : Option IndexMap) (g : Groups)
    → IsGrouped g
    → IsGrouped (place_remote index name o g)
unfolding place_remote
place_remote-IsGrouped index name none g u = record {
  primary = u.primary;
  secondary = UniqueNames-insert g.secondary name _ u.secondary;
}
place_remote-IsGrouped index name (some js) g u = record {
  primary = UniqueNames-insert g.primary name _ u.primary;
  secondary = u.secondary;
}

pub on_local-place_remote :
    (index : ℕ) (name : String) (o : Option IndexMap) (g : Groups)
    → (place_remote index name o g).on_local ≡ g.on_local
unfolding place_remote
on_local-place_remote index name none g = refl
on_local-place_remote index name (some js) g = refl

-- A map for a node that has none adds no place.
pub insert_empty :
    (maps : NodeIndexes) (name n : String) (i : ℕ)
    → get maps name ≡ none
    → contains_at (insert maps name []) n i ≡ contains_at maps n i
insert_empty maps name n i h = elim (Bool-cases (name == n)) [
  | inl e ↦
      let f : name ≡ n = (eq_iff name n).0 e in
      let k : get maps n ≡ none = subst (λ x. get maps x ≡ none) f h in
      rw (get-insert maps name n [], e, k) refl
  | inr e ↦ rw (get-insert maps name n [], e) refl
]

pub not_some {ℓ} : {A : Type ℓ} (o : Option A) → is_some o ≡ false → o ≡ none
not_some none h = refl
not_some (some a) h = absurd (cc)

pub any_not :
    {A : Type 0} (p : A → Bool) (xs : List A) (x : A) → Member x xs → any p xs ≡ false → p x ≡ false
any_not p [] x m h = absurd m
any_not p (y ∷ ys) x m h = ground (arith, any_not p ys x, ap p)
