-- ===== src/Pearl/Holder/Lifecycle.antt =====
-- Several tasks at one holder (bob-backend/src/pearl/holder.rs). The storage lock makes each access
-- to the storage one step; the semaphore `init_protection` lets one task at a time through a restart,
-- between whose steps the others may write, delete or close. `prepare_storage` runs first, on a
-- holder that no other task knows.
use bob.Prelude.{Bool, false, refl, true, ◌≡◌}
use bob.Error.{ok, err}
use bob.Pearl.Holder.{PearlState, initializing, running, set_ready, reset}

-- The task that holds `init_protection`: none, one that has not yet reset the storage, or one that
-- opens a new one.
pub data Protected : Type 0 where
  free before_reset opening : Protected

pub record Shared (S : Type 0) : Type 0 where
  pub state : PearlState S
  pub protected : Protected
  pub panicked : Bool

-- `set_ready(storage).expect(..)`, after which the semaphore is released.
unfoldable pub finish_init : {S : Type 0} → S → Shared S → Shared S
finish_init st w =
    let (r, state) = set_ready st w.state in
    elim r [
      | ok u ↦ record w { state = state; protected = free }
      | err e ↦ record w { panicked = true }
    ]

pub data Step {S : Type 0} : Shared S → Shared S → Type 0 where
  -- `try_acquire`; another task's attempt fails while one is through.
  acquire : (w : Shared S) → w.protected ≡ free → Step w (record w { protected = before_reset })
  reset_storage :
      (w : Shared S)
      → w.protected ≡ before_reset
      → Step w (record w { state = (reset w.state).1; protected = opening })
  opened : (w : Shared S) (st : S) → w.protected ≡ opening → Step w (finish_init st w)
  open_failed : (w : Shared S) → w.protected ≡ opening → Step w (record w { protected = free })
  -- A write or a delete on the running storage, by any task.
  access :
      (w : Shared S) (old st : S) → w.state ≡ running old → Step w (record w { state = running st })
  close : (w : Shared S) → Step w (record w { state = (reset w.state).1 })

-- A new holder, for which `prepare_storage` holds the semaphore.
abbrev pub new_shared : {S : Type 0} → Shared S
new_shared = record { state = initializing; protected = opening; panicked = false }

pub data Reach {S : Type 0} : Shared S → Type 0 where
  here : Reach new_shared
  next : {v w : Shared S} → Reach v → Step v w → Reach w

pub record IsSound {S : Type 0} (w : Shared S) : Type 0 where
  pub closed_while_opening : w.protected ≡ opening → w.state ≡ initializing
  pub no_panic : w.panicked ≡ false

reset-closed : {S : Type 0} (s : PearlState S) → (reset s).1 ≡ initializing
unfolding reset
reset-closed initializing = refl
reset-closed (running st) = refl

Step-IsSound : {S : Type 0} {v w : Shared S} → Step v w → IsSound v → IsSound w
unfolding finish_init set_ready
Step-IsSound (acquire w f) i = record {
  closed_while_opening = λ e. absurd (cc e);
  no_panic = i.no_panic;
}
Step-IsSound (reset_storage w f) i = record {
  closed_while_opening = λ e. reset-closed w.state;
  no_panic = i.no_panic;
}
Step-IsSound (opened w st f) i =
    rw (finish_init, i.closed_while_opening f, set_ready)
      (record { closed_while_opening = λ e. absurd (cc e); no_panic = i.no_panic })
Step-IsSound (open_failed w f) i = record {
  closed_while_opening = λ e. absurd (cc e);
  no_panic = i.no_panic;
}
Step-IsSound (access w old st f) i = record {
  closed_while_opening = λ e. absurd (cc (f, i.closed_while_opening e));
  no_panic = i.no_panic;
}
Step-IsSound (close w) i = record {
  closed_while_opening = λ e. reset-closed w.state;
  no_panic = i.no_panic;
}

-- However the tasks interleave, a holder is never given a storage while it has one: while a task
-- opens one there is none, and setting it does not panic.
pub Reach-IsSound : {S : Type 0} {w : Shared S} → Reach w → IsSound w
Reach-IsSound here = record { closed_while_opening = λ e. refl; no_panic = refl }
Reach-IsSound (next r s) = Step-IsSound s (Reach-IsSound r)
