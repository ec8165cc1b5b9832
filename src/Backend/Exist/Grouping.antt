-- ===== src/Backend/Exist/Grouping.antt =====
-- Grouping the keys of `exist` by operation (bob-backend/src/core.rs).
use bob.Act.{◌>>=◌}
use bob.Error.{Error, Result, ok, err}
use bob.Prelude.{
  Bool, Bool-cases, List, [], any, ap, arith, eqb, false, get_elem?, inl, inr, length,
  length-append, map, refl, replicate, suc, zero, ℕ, ◌&&◌, ◌++◌, ◌+◌, ◌<◌, ◌||◌, ◌∙◌, ◌∷◌, ◌≡◌, ◌⊎◌,
}
use bob.Data.{BobKey}
use bob.Map.{get, insert, insert-head, insert-tail}
use bob.Backend.Storage.{Operation, BackendStorage, operation_eq, operation_iff}
use bob.Backend.Exist.{
  Groups, push, add_key, add_operations, group_keys, ask, ask_groups, exist_by, Result, ok, err,
  scatter,
}
use bob.Backend.Exist.Places.{
  or_at, hits_zip, or_at-false, or_at-or_at, list_ext, get_elem?-scatter,
}

from_zero : (i : ℕ) → i ≡ 0 + i
from_zero i = omega arith

plus_suc : (a b : ℕ) → a + suc b ≡ (a + 1) + b
plus_suc a b = omega arith

answer_cases :
    (r : Result (BobKey → Bool)) → ((p : BobKey → Bool) × (r ≡ ok p)) ⊎ ((x : Error) × (r ≡ err x))
answer_cases (ok p) = inl (p, refl)
answer_cases (err x) = inr (x, refl)

-- An answer for a key, and the reply to a list of keys; a refusal has no keys.
abbrev pub holds_of : Result (BobKey → Bool) → BobKey → Bool
holds_of (ok p) k = p k
holds_of (err e) k = false

abbrev pub reply_of : Result (BobKey → Bool) → List BobKey → Result (List Bool)
reply_of (ok p) ks = ok (map p ks)
reply_of (err e) ks = err e

hits_zip_none : (ks : List BobKey) (js : List ℕ) (i : ℕ) → hits_zip (λ k. false) ks js i ≡ false
hits_zip_none [] js i = refl
hits_zip_none (k ∷ ks) [] i = refl
hits_zip_none (k ∷ ks) (j ∷ js) i = ground (arith, hits_zip_none ks js i)

module _ (present : Operation → Result (BobKey → Bool)) where
  -- What the storage has of the key under the operation; nothing where it refuses.
  abbrev pub holds : Operation → BobKey → Bool
  holds op = holds_of (present op)

  abbrev hits : Groups → ℕ → Bool
  hits [] i = false
  hits ((op, (ks, js)) ∷ gs) i = hits_zip (holds op) ks js i || hits gs i

  -- The storage's answer to a group.
  abbrev pub reply : Operation → List BobKey → Result (List Bool)
  reply op ks = reply_of (present op) ks

  -- Keys and places of a group are of one length.
  abbrev Paired : Groups → Type 0
  Paired [] = Unit
  Paired ((op, (ks, js)) ∷ gs) = (length ks ≡ length js) × Paired gs

  hits_zip-append :
      (p : BobKey → Bool) (ks : List BobKey) (js : List ℕ) (k : BobKey) (j i : ℕ)
      → length ks ≡ length js
      → hits_zip p (ks ++ k ∷ []) (js ++ j ∷ []) i ≡ (hits_zip p ks js i || (eqb j i && p k))
  hits_zip-append p [] [] k j i h = ground arith
  hits_zip-append p [] (x ∷ js) k j i h = absurd (omega (arith, h))
  hits_zip-append p (x ∷ ks) [] k j i h = absurd (omega (arith, h))
  hits_zip-append p (x ∷ ks) (y ∷ js) k j i h =
      ground (arith, hits_zip-append p ks js k j i (omega (arith, h)))

  hits-insert :
      (gs : Groups) (op : Operation) (k : BobKey) (j i : ℕ)
      → Paired gs
      → hits (insert gs op (push k j (get gs op))) i ≡ (hits gs i || (eqb j i && holds op k))
  hits-insert [] op k j i h = unfold insert get in ground arith
  hits-insert ((op', (ks, js)) ∷ gs) op k j i h = elim (Bool-cases (operation_eq.beq op' op)) [
    | inl e ↦
        let same : op' ≡ op = (operation_iff op' op).0 e in
        rw (insert-head gs op' op (ks, js) (push k j) e, ← same)
          (ground (arith, hits_zip-append (holds op') ks js k j i h.0))
    | inr e ↦
        rw (insert-tail gs op' op (ks, js) (push k j) e)
          (ground (arith, hits-insert gs op k j i h.1))
  ]

  Paired-insert :
      (gs : Groups) (op : Operation) (k : BobKey) (j : ℕ)
      → Paired gs
      → Paired (insert gs op (push k j (get gs op)))
  Paired-insert [] op k j h = unfold insert get in (refl, tt)
  Paired-insert ((op', (ks, js)) ∷ gs) op k j h = elim (Bool-cases (operation_eq.beq op' op)) [
    | inl e ↦
        rw (insert-head gs op' op (ks, js) (push k j) e)
          (omega (arith, h.0, length-append ks (k ∷ []), length-append js (j ∷ [])), h.1)
    | inr e ↦ rw (insert-tail gs op' op (ks, js) (push k j) e) (h.0, Paired-insert gs op k j h.1)
  ]

  -- Whether a key holds under one of the operations.
  abbrev pub found_in : List Operation → BobKey → Bool
  found_in ops k = any (λ op. holds op k) ops

  hits-add_operations :
      (gs : Groups) (ops : List Operation) (k : BobKey) (j i : ℕ)
      → Paired gs
      → (hits (add_operations gs ops k j) i ≡ (hits gs i || (eqb j i && found_in ops k)))
        × Paired (add_operations gs ops k j)
  unfolding add_operations add_key
  hits-add_operations gs [] k j i h = (ground arith, h)
  hits-add_operations gs (op ∷ ops) k j i h =
      let (e, p) =
        hits-add_operations (insert gs op (push k j (get gs op))) ops k j i
          (Paired-insert gs op k j h) in
      (e ∙ ground (arith, hits-insert gs op k j i h), p)

  module _ (find : BobKey → List Operation) where
    abbrev at_place : ℕ → List BobKey → ℕ → Bool
    at_place ind [] i = false
    at_place ind (k ∷ ks) i = (eqb ind i && found_in (find k) k) || at_place (ind + 1) ks i

    hits-group_keys :
        (gs : Groups) (ind : ℕ) (keys : List BobKey) (i : ℕ)
        → Paired gs
        → hits (group_keys find gs ind keys) i ≡ (hits gs i || at_place ind keys i)
    unfolding group_keys
    hits-group_keys gs ind [] i h = ground arith
    hits-group_keys gs ind (k ∷ keys) i h =
        let (e, p) = hits-add_operations gs (find k) k ind i h in
        hits-group_keys (add_operations gs (find k) k ind) (ind + 1) keys i p ∙ ground (arith, e)

    at_place-before : (ind : ℕ) (keys : List BobKey) (i : ℕ) → i < ind → at_place ind keys i ≡ false
    at_place-before ind [] i h = refl
    at_place-before ind (k ∷ keys) i h =
        ground (arith, at_place-before (ind + 1) keys i (omega arith))

    each_place :
        (ind : ℕ) (keys : List BobKey) (i : ℕ)
        → or_at (get_elem? (replicate (length keys) false) i) (at_place ind keys (ind + i))
          ≡ get_elem? (map (λ k. found_in (find k) k) keys) i
    each_place ind [] i = refl
    each_place ind (k ∷ keys) zero =
        ground (arith, at_place-before (ind + 1) keys (ind + 0) (omega arith))
    each_place ind (k ∷ keys) (suc i) =
        let later : at_place ind (k ∷ keys) (ind + suc i)
            ≡ at_place (ind + 1) keys ((ind + 1) + i) =
          ground (arith, ap (at_place (ind + 1) keys) (plus_suc ind i)) in
        ap (or_at (get_elem? (replicate (length keys) false) i)) later ∙ each_place (ind + 1) keys i

  module _ {S : Type 0} (inner : BackendStorage S) (s : S)
      (asks : (op : Operation) (ks : List BobKey) → ask inner op ks s ≡ (reply op ks, s)) where
    get_elem?-ask_groups :
        (gs : Groups) (exist : List Bool) (i : ℕ)
        → get_elem? (ask_groups inner gs exist s).0 i ≡ or_at (get_elem? exist i) (hits gs i)
    unfolding ask_groups
    get_elem?-ask_groups [] exist i = or_at-false (get_elem? exist i) false false refl
    get_elem?-ask_groups ((op, (ks, js)) ∷ gs) exist i = elim (answer_cases (present op)) [
      | inl (p, e) ↦
          let f : reply op ks ≡ ok (map p ks) = ap (λ r. reply_of r ks) e in
          let h : holds op ≡ p = ap holds_of e in
          rw (asks op ks, f, h, ◌>>=◌)
            (get_elem?-ask_groups gs (scatter (map p ks) js exist) i
              ∙ ap (λ o. or_at o (hits gs i)) (get_elem?-scatter p ks js exist i)
              ∙ or_at-or_at (get_elem? exist i) (hits_zip p ks js i) (hits gs i))
      | inr (x, e) ↦
          let f : reply op ks ≡ err x = ap (λ r. reply_of r ks) e in
          let h : holds op ≡ (λ k. false) = ap holds_of e in
          rw (asks op ks, f, h, ◌>>=◌, hits_zip_none ks js i) (get_elem?-ask_groups gs exist i)
    ]

    -- With a storage that, in the state it is in, answers for each key by itself or refuses an
    -- operation, and that a question does not change: asking once for each group of keys answers, for each key in its
    -- place, whether one of the key's operations has it.
    pub exist_by-lem :
        (find : BobKey → List Operation) (keys : List BobKey)
        → (exist_by inner find keys s).0 ≡ ok (map (λ k. found_in (find k) k) keys)
    unfolding exist_by
    exist_by-lem find keys = ap ok (
        list_ext _ _ (λ i.
          get_elem?-ask_groups (group_keys find [] 0 keys) (replicate (length keys) false) i
          ∙ ap (or_at (get_elem? (replicate (length keys) false) i))
              (hits-group_keys find [] 0 keys i tt)
          ∙ ap (λ n. or_at (get_elem? (replicate (length keys) false) i) (at_place find 0 keys n))
              (from_zero i)
          ∙ each_place find 0 keys i))
