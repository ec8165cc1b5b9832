-- ===== src/Error.antt =====
-- bob-common/src/error.rs: the kinds of error. `Error` there is a wrapper of one `Kind`; here it
-- is the kind itself, and each constructor function (`Error::internal()`) is the constructor.
-- Text that the code formats from other values is a fixed text here.
use bob.Prelude.{Bool, List, String, false, true, ℕ}

pub data Error : Type 0 where
  timeout duplicate_key dc_is_not_available possible_disk_disconnection : Error
  vdisk_is_not_ready internal unauthorized holder_temporary_unavailable : Error
  vdisk_not_found : ℕ → Error
  storage failed pearl_change_state request_failed_completely disks_events_logger : String → Error
  key_not_found : List ℕ → Error

unfoldable pub is_duplicate : Error → Bool
is_duplicate duplicate_key = true
is_duplicate _ = false

unfoldable pub is_key_not_found : Error → Bool
is_key_not_found (key_not_found k) = true
is_key_not_found _ = false

pub data Result {ℓ} (A : Type ℓ) : Type ℓ where
  ok : A → Result A
  err : Error → Result A

-- `res.is_ok()` and `res.is_err()`.
abbrev pub is_ok {ℓ} : {A : Type ℓ} → Result A → Bool
is_ok (ok a) = true
is_ok (err e) = false
