-- ===== src/Pearl/Holder.antt =====
-- `Holder` of bob-backend/src/pearl/holder.rs: the storage of one period of time, as it is seen by
-- one task; Holder/Lifecycle has several tasks at once. Opening a storage, with all its retries, is
-- a parameter: what comes of it for the holder that starts at a time. A panic is `none`.
pub mod Restart
pub mod Lifecycle
use bob.Prelude.{Bool, List, Option, false, leb, ltb, map, none, not, some, true, ℕ, ◌&&◌, ◌-◌}
use mathlib.Core.Option
use bob.Data.{BobKey, BobData, BobMeta, to_serialized_bytes, from_serialized_bytes}
use bob.Act.{Act}
use bob.Error.{
  Error, Result, ok, err, internal, possible_disk_disconnection, vdisk_is_not_ready, storage,
  failed, is_duplicate, is_key_not_found,
}
use bob.Pearl.Storage.{
  ReadResult, found, deleted, not_found, PearlError, not_pearl, work_dir_unavailable, other_kind,
  PearlResult, done, failure, PearlStorage,
}

pub data PearlState (S : Type 0) : Type 0 where
  initializing : PearlState S
  running : S → PearlState S

-- `PearlSync::get`, `is_ready`, `set_ready` and `reset`.
unfoldable pub get_storage : {S : Type 0} → PearlState S → Option S
get_storage initializing = none
get_storage (running st) = some st

unfoldable pub is_ready : {S : Type 0} → PearlState S → Bool
is_ready initializing = false
is_ready (running st) = true

unfoldable pub set_ready : {S : Type 0} → S → PearlState S → Result (Unit {0}) × PearlState S
set_ready st initializing = (ok tt, running st)
set_ready st (running old) = (err (failed "storage already initialized"), running old)

unfoldable pub reset : {S : Type 0} → PearlState S → Option S × PearlState S
reset initializing = (none, initializing)
reset (running st) = (some st, initializing)

pub record Holder (S : Type 0) : Type 0 where
  pub start_timestamp : ℕ
  pub end_timestamp : ℕ
  pub state : PearlState S
  pub last_modification : ℕ

unfoldable pub is_not_ready : Error → Bool
is_not_ready vdisk_is_not_ready = true
is_not_ready _ = false

unfoldable pub is_possible_disk_disconnection : Error → Bool
is_possible_disk_disconnection possible_disk_disconnection = true
is_possible_disk_disconnection _ = false

unfoldable pub write_error : PearlError → Error
write_error not_pearl = possible_disk_disconnection
write_error work_dir_unavailable = possible_disk_disconnection
write_error other_kind = internal

abbrev pub write_result : PearlResult (Unit {0}) → Result (Unit {0})
write_result (done u) = ok tt
write_result (failure e) = err (write_error e)

abbrev pub storage_result {ℓ} : {A : Type ℓ} → PearlResult A → Result A
storage_result (done a) = ok a
storage_result (failure e) = err (storage "pearl error")

-- `BobData::from_serialized_bytes` on what was found.
unfoldable pub parse_read : PearlResult (ReadResult (List ℕ)) → Option (Result (ReadResult BobData))
parse_read (done (found bytes)) = Option.map (λ d. ok (found d)) (from_serialized_bytes bytes)
parse_read (done (deleted ts)) = some (ok (deleted ts))
parse_read (done not_found) = some (ok not_found)
parse_read (failure e) = some (err (storage "pearl error"))

abbrev pub gets_into_interval : {S : Type 0} → Holder S → ℕ → Bool
gets_into_interval h timestamp = leb h.start_timestamp timestamp && ltb timestamp h.end_timestamp

abbrev pub is_outdated : {S : Type 0} → ℕ → Holder S → Bool
is_outdated now h = ltb h.end_timestamp now

-- The subtraction underflows only for a clock that shows less than the period.
abbrev pub is_older_than : {S : Type 0} → ℕ → ℕ → Holder S → Bool
is_older_than now secs h = ltb h.end_timestamp (now - secs)

module _ {S : Type 0} (pearl : PearlStorage S) (create_and_prepare_storage : ℕ → Result S)
    (now : ℕ) where
  unfoldable pub write_to : BobKey → BobData → Holder S → Option S → Result (Unit {0}) × Holder S
  write_to key d h none = (err vdisk_is_not_ready, h)
  write_to key d h (some st) =
      let (r, st') = pearl.write key (to_serialized_bytes d) d.meta.timestamp st in
      (write_result r, record h { state = running st'; last_modification = now })

  unfoldable pub write : BobKey → BobData → Act (Holder S) (Result (Unit {0}))
  unfolding write_to
  write key d h = write_to key d h (get_storage h.state)

  unfoldable pub read : BobKey → Holder S → Option (Result (ReadResult BobData))
  unfolding parse_read
  read key h = elim (get_storage h.state) [
    | none ↦ some (err vdisk_is_not_ready)
    | some st ↦ parse_read (pearl.read st key)
  ]

  unfoldable pub exist : BobKey → Holder S → Result (ReadResult ℕ)
  exist key h = elim (get_storage h.state) [
    | none ↦ err vdisk_is_not_ready
    | some st ↦ storage_result (pearl.contains st key)
  ]

  unfoldable pub delete_in : BobKey → BobMeta → Bool → Holder S → Option S → Result ℕ × Holder S
  delete_in key meta force_delete h none = (err vdisk_is_not_ready, h)
  delete_in key meta force_delete h (some st) =
      let (r, st') = pearl.delete key meta.timestamp (not force_delete) st in
      (storage_result r, record h { state = running st'; last_modification = now })

  unfoldable pub delete : BobKey → BobMeta → Bool → Act (Holder S) (Result ℕ)
  unfolding delete_in
  delete key meta force_delete h = delete_in key meta force_delete h (get_storage h.state)

  -- What is opened becomes the storage: `expect("Storage setting successful")`.
  unfoldable pub set_opened : Result S → Holder S → Option (Result (Unit {0}) × Holder S)
  set_opened (err e) h = some (err e, h)
  set_opened (ok st) h =
      let (r, state) = set_ready st h.state in
      elim r [ ok u ↦ some (ok tt, record h { state = state }) | err e ↦ none ]

  unfoldable pub prepare_storage : Holder S → Option (Result (Unit {0}) × Holder S)
  unfolding set_opened
  prepare_storage h = set_opened (create_and_prepare_storage h.start_timestamp) h

  unfoldable pub try_reinit : Holder S → Option (Result (Unit {0}) × Holder S)
  unfolding set_opened
  try_reinit h =
      set_opened (create_and_prepare_storage h.start_timestamp)
        (record h { state = (reset h.state).1 })

  unfoldable pub close_storage : Holder S → Holder S
  close_storage h = record h { state = (reset h.state).1 }
