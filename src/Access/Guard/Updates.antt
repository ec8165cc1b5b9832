-- ===== src/Access/Guard/Updates.antt =====
-- What an update of the state of a guard does (bob-access/src/credentials.rs).
use bob.Prelude.{
  Bool, Bool-cases, String, arith, false, if◌then◌else◌, inl, inr, leb, refl, true, ℕ, ◌<◌, ◌≡◌,
  ◌⊎◌,
}
use bob.Map.{string_eq}
use bob.Access.{has_hostname, validate_internode, is_created_with_address}
use bob.Access.Guard.{
  Guard, ResolveState, resolved, in_progress, update, update_state, update_resolve_state,
}

pub has_hostname-again :
    (name : String) (g : Guard)
    → validate_internode g.credentials ≡ true
    → is_created_with_address g.credentials ≡ false
    → has_hostname g.credentials ≡ true
unfolding validate_internode is_created_with_address
has_hostname-again name g v c = ground arith

-- An update of the state of a guard leaves its credentials; where it says that the host name is to be
-- looked up again, there is one, and else the count stays below the threshold.
pub record Updated (g : Guard) (r : Bool × Guard) : Type 0 where
  pub kept : r.1.credentials ≡ g.credentials
  pub looked_up : r.0 ≡ true → is_created_with_address g.credentials ≡ false
  pub waiting : r.0 ≡ false → r.1.resolve_state ≡ in_progress → g.resolve_state ≡ in_progress
  pub below :
      r.0 ≡ false
      → (n : ℕ) → r.1.resolve_state ≡ resolved n
      → (n < 3) ⊎ (g.resolve_state ≡ resolved n)

update-below :
    (s : ResolveState) (a : Bool)
    → (update s a).0 ≡ false
    → (((update s a).1 ≡ in_progress → s ≡ in_progress)
        × ((n : ℕ) → (update s a).1 ≡ resolved n → (n < 3) ⊎ (s ≡ resolved n)))
unfolding update
update-below in_progress a h = (λ e. refl, λ n e. inr e)
update-below (resolved m) true h = (λ e. absurd (cc e), λ n e. inl (ground arith))
update-below (resolved m) false h = (λ e. absurd (cc e), λ n e. inl (ground arith))

update_state-Updated :
    (g : Guard) (a : Bool)
    → is_created_with_address g.credentials ≡ false
    → Updated g (update_state g a)
unfolding update_state
update_state-Updated g a c = record {
  kept = refl;
  looked_up = λ e. c;
  waiting = λ f. (update-below g.resolve_state a f).0;
  below = λ f. (update-below g.resolve_state a f).1;
}

unchanged-Updated : (g : Guard) → Updated g (false, g)
unchanged-Updated g = record {
  kept = refl;
  looked_up = λ e. absurd (cc e);
  waiting = λ f e. e;
  below = λ f n e. inr e;
}

if_both : {A : Type 0} (P : A → Type 0) (c : Bool) (x y : A) → P x → P y → P (if c then x else y)
if_both P true x y p q = p
if_both P false x y p q = q

pub update_resolve_state-Updated :
    (now : ℕ) (g : Guard) (a : Bool) → Updated g (update_resolve_state now g a)
unfolding update_resolve_state
update_resolve_state-Updated now g a = elim (Bool-cases (is_created_with_address g.credentials)) [
  | inl t ↦ rw (update_resolve_state, t) (unchanged-Updated g)
  | inr f ↦
      let u = update_state-Updated g a f in
      let n = unchanged-Updated g in
      rw (update_resolve_state, f)
        (if_both (Updated g) a (update_state g a) _ u
          (if_both (Updated g) (leb g.resolve_threshold now) (update_state g a) (false, g) u n))
]
