-- ===== src/Access/Guard.antt =====
-- bob-access/src/credentials.rs: `ResolveState` and `DCredentialsResolveGuard`, which decide when the
-- host name of a node is looked up again. `now` is the instant that `Instant::now()` gives.
pub mod Updates
use bob.Prelude.{Bool, List, false, if◌then◌else◌, leb, ltb, ℕ, ◌%◌, ◌+◌, ◌^◌}
use bob.Access.{DeclaredCredentials, SocketAddr, is_created_with_address, replace_addresses}

abbrev pub resolve_threshold_count : ℕ
resolve_threshold_count = 3

pub data ResolveState : Type 0 where
  resolved : ℕ → ResolveState
  in_progress : ResolveState

-- The new state, and whether the host name is to be looked up again; the count is a `u32`.
unfoldable pub update : ResolveState → Bool → Bool × ResolveState
update in_progress authenticated = (false, in_progress)
update (resolved n) authenticated =
    if authenticated
    then (false, resolved 0)
    else (leb resolve_threshold_count ((n + 1) % 2 ^ 32), resolved ((n + 1) % 2 ^ 32))

pub record Guard : Type 0 where
  pub credentials : DeclaredCredentials
  pub resolve_state : ResolveState
  pub resolve_threshold : ℕ
  pub resolve_protection_period_ms : ℕ

unfoldable pub new_guard : DeclaredCredentials → ℕ → ℕ → Guard
new_guard credentials period now = record {
  credentials = credentials;
  resolve_state = resolved 0;
  resolve_threshold = now + period;
  resolve_protection_period_ms = period;
}

unfoldable pub update_state : Guard → Bool → Bool × Guard
update_state g authenticated =
    let (again, state) = update g.resolve_state authenticated in
    (again, record g { resolve_state = state })

unfoldable pub update_resolve_state : ℕ → Guard → Bool → Bool × Guard
update_resolve_state now g authenticated =
    if is_created_with_address g.credentials
    then (false, g)
    else if authenticated
    then update_state g authenticated
    else if leb g.resolve_threshold now
    then update_state g authenticated
    else (false, g)

unfoldable pub needs_update : ℕ → Guard → Bool → Bool
needs_update now g authenticated =
    if is_created_with_address g.credentials then false else elim (g.resolve_state) [
      | resolved n ↦ if authenticated then ltb 0 n else leb g.resolve_threshold now
      | in_progress ↦ false
    ]

unfoldable pub set_resolved : ℕ → List SocketAddr → Guard → Guard
set_resolved now addresses g = record g {
  credentials = replace_addresses addresses g.credentials;
  resolve_state = resolved 0;
  resolve_threshold = now + g.resolve_protection_period_ms;
}

unfoldable pub set_in_progress : Guard → Guard
set_in_progress g = record g { resolve_state = in_progress }
