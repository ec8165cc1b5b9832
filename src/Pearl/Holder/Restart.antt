-- ===== src/Pearl/Holder/Restart.antt =====
-- A restart of a holder does not panic (bob-backend/src/pearl/holder.rs).
use bob.Prelude.{refl, some, ℕ, ◌≡◌}
use bob.Error.{Result, ok, err}
use bob.Pearl.Storage.{PearlStorage}
use bob.Pearl.Holder.{
  Holder, PearlState, initializing, running, set_ready, reset, set_opened, try_reinit,
}

reset-initializing : {S : Type 0} (s : PearlState S) → (reset s).1 ≡ initializing
unfolding reset
reset-initializing initializing = refl
reset-initializing (running st) = refl

module _ {S : Type 0} (pearl : PearlStorage S) (create_and_prepare_storage : ℕ → Result S)
    (now : ℕ) where
  set_opened-some :
      (r : Result S) (h : Holder S)
      → h.state ≡ initializing
      → (p : Result (Unit {0}) × Holder S) × (set_opened pearl create_and_prepare_storage now r h
          ≡ some p)
  unfolding set_opened set_ready
  set_opened-some (err e) h i = (_, refl)
  set_opened-some (ok st) h i = rw i (_, refl)

  pub try_reinit-some :
      (h : Holder S)
      → (p : Result (Unit {0}) × Holder S) × (try_reinit pearl create_and_prepare_storage now h
          ≡ some p)
  unfolding try_reinit
  try_reinit-some h =
      set_opened-some (create_and_prepare_storage h.start_timestamp)
        (record h { state = (reset h.state).1 }) (reset-initializing h.state)
