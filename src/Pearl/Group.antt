-- ===== src/Pearl/Group.antt =====
-- `Group` of bob-backend/src/pearl/group.rs: the holders of one vdisk on one disk. The hierarchy of
-- filters over the holders belongs to the pearl library: `is_possible` is what it tells of a holder
-- and a key. A task that remounts the group holds `reinit_lock`. A panic is `none`.
pub mod Newest
pub mod Existence
pub mod Writing
use bob.Prelude.{
  Bool, List, Option, String, [], any, eqb, false, if◌then◌else◌, leb, length, ltb, map, none, not,
  set, some, true, ℕ, ◌&&◌, ◌++◌, ◌+◌, ◌==◌, ◌∷◌,
}
use mathlib.Core.Option
use bob.Data.{BobKey, BobData, BobMeta}
use bob.Act.{Act}
use bob.Error.{
  Error, Result, ok, err, failed, holder_temporary_unavailable, key_not_found, pearl_change_state,
  is_duplicate, is_key_not_found,
}
use bob.Node.{DiskPath}
use bob.Backend.Storage.{Operation, is_data_alien}
use bob.Pearl.Timestamps.{get_start_timestamp_by_timestamp}
use bob.Pearl.Storage.{ReadResult, found, deleted, not_found, PearlStorage}
use bob.Pearl.Holder.{
  Holder, initializing, gets_into_interval, is_not_ready, is_possible_disk_disconnection, write,
  read, exist, delete, prepare_storage, try_reinit,
}

pub record Group (S : Type 0) : Type 0 where
  pub vdisk_id : ℕ
  pub node_name : String
  pub disk_name : String
  pub holders : List (Holder S)
  pub safe_timestamp_step : Option ℕ
  pub timestamp_period : ℕ
  pub reinit_running : Bool

unfoldable pub can_process_operation : {S : Type 0} → Group S → Operation → Bool
can_process_operation g op = elim op.disk_path [
  | none ↦
      elim op.remote_node_name [ none ↦ true | some name ↦ name == g.node_name ]
      && eqb g.vdisk_id op.vdisk_id
  | some path ↦ eqb g.vdisk_id op.vdisk_id && (g.disk_name == path.name)
]

-- The holder with the greatest start among those that the timestamp falls into, the first of
-- these, with its place.
abbrev pub later_start : {S : Type 0} → Option (ℕ × Holder S) → ℕ × Holder S → ℕ × Holder S
later_start none elem = elem
later_start (some (i, h)) (j, k) =
    if ltb h.start_timestamp k.start_timestamp then (j, k) else (i, h)

unfoldable pub find_actual_from :
    {S : Type 0} → ℕ → ℕ → Option (ℕ × Holder S) → List (Holder S) → Option (ℕ × Holder S)
find_actual_from timestamp ind best [] = best
find_actual_from timestamp ind best (h ∷ hs) =
    find_actual_from timestamp (ind + 1)
      (if gets_into_interval h timestamp then some (later_start best (ind, h)) else best) hs

unfoldable pub find_actual_holder : {S : Type 0} → List (Holder S) → ℕ → Option (ℕ × Holder S)
unfolding find_actual_from
find_actual_holder holders timestamp = find_actual_from timestamp 0 none holders

-- What `get` has found so far.
pub record Scan : Type 0 where
  pub max_timestamp : Option ℕ
  pub result : Option BobData
  pub has_error : Bool

abbrev pub is_newer : Option ℕ → ℕ → Bool
is_newer none ts = true
is_newer (some m) ts = ltb m ts

unfoldable pub take_read : Result (ReadResult BobData) → Scan → Scan
take_read (ok (found d)) s =
    if is_newer s.max_timestamp d.meta.timestamp
    then record s { max_timestamp = some d.meta.timestamp; result = some d }
    else s
take_read (ok (deleted ts)) s =
    if is_newer s.max_timestamp ts then record s { max_timestamp = some ts; result = none } else s
take_read (ok not_found) s = s
take_read (err e) s = record s { has_error = true }

unfoldable pub should_check_holder : {S : Type 0} → Option ℕ → Holder S → Option ℕ → Bool
should_check_holder none h max_timestamp = true
should_check_holder (some step) h none = true
should_check_holder (some step) h (some m) = leb m (h.end_timestamp + step)

unfoldable pub reply_of_scan : BobKey → Scan → Result BobData
reply_of_scan key s = elim s.result [
  | some d ↦ ok d
  | none ↦
      if s.has_error then err (failed "cannot read from some pearls") else err (key_not_found key)
]

-- For `exist`: the timestamp and the answer so far.
unfoldable pub take_exist : Result (ReadResult ℕ) → Option ℕ × Bool → Option ℕ × Bool
take_exist (ok (found ts)) (m, result) = if is_newer m ts then (some ts, true) else (m, result)
take_exist (ok (deleted ts)) (m, result) = if is_newer m ts then (some ts, false) else (m, result)
take_exist (ok not_found) s = s
take_exist (err e) s = s

-- A failed write or delete restarts the holder, but for these errors.
abbrev pub restarts_write : Error → Bool
restarts_write e =
    not (is_possible_disk_disconnection e) && not (is_duplicate e) && not (is_not_ready e)

abbrev pub restarts_read : Error → Bool
restarts_read e = not (is_key_not_found e) && not (is_not_ready e)

module _ {S : Type 0} (pearl : PearlStorage S) (create_and_prepare_storage : ℕ → Result S)
    (now max_time : ℕ) (is_possible : BobKey → Holder S → Bool) where
  -- The holder after `try_reinit`, whose result is only logged.
  unfoldable pub reinit : Holder S → Option (Holder S)
  reinit h = Option.map (λ r. r.1) (try_reinit pearl create_and_prepare_storage now h)

  unfoldable pub reinit_if : Bool → Holder S → Option (Holder S)
  unfolding reinit
  reinit_if true h = reinit h
  reinit_if false h = some h

  unfoldable pub after_read : Result (ReadResult BobData) → Holder S → Option (Holder S)
  unfolding reinit_if
  after_read (ok r) h = some h
  after_read (err e) h = reinit_if (restarts_read e) h

  -- `get_common`: what is read, and the holder afterwards.
  unfoldable pub get_common : BobKey → Holder S → Option (Result (ReadResult BobData) × Holder S)
  unfolding after_read
  get_common key h = elim (read pearl create_and_prepare_storage now key h) [
    | none ↦ none
    | some r ↦ Option.map (λ k. (r, k)) (after_read r h)
  ]

  unfoldable pub scan_one : BobKey → Option ℕ → Holder S → Scan → Option (Scan × Holder S)
  unfolding get_common take_read should_check_holder
  scan_one key step h s =
      if is_possible key h && should_check_holder step h s.max_timestamp
      then Option.map (λ p. (take_read p.0 s, p.1)) (get_common key h)
      else some (s, h)

  -- From the last holder to the first.
  unfoldable pub scan_rev : BobKey → Option ℕ → List (Holder S) → Option (Scan × List (Holder S))
  unfolding scan_one
  scan_rev key step [] =
      some (record { max_timestamp = none; result = none; has_error = false }, [])
  scan_rev key step (h ∷ hs) = elim (scan_rev key step hs) [
    | none ↦ none
    | some (s, hs') ↦ Option.map (λ p. (p.0, p.1 ∷ hs')) (scan_one key step h s)
  ]

  unfoldable pub get : BobKey → Group S → Option (Result BobData × Group S)
  unfolding scan_rev reply_of_scan
  get key g =
      if g.reinit_running
      then some (err holder_temporary_unavailable, g)
      else Option.map (λ p. (reply_of_scan key p.0, record g { holders = p.1 }))
          (scan_rev key g.safe_timestamp_step g.holders)

  unfoldable pub exist_one : BobKey → Option ℕ → Holder S → Option ℕ × Bool → Option ℕ × Bool
  unfolding take_exist should_check_holder
  exist_one key step h s =
      if is_possible key h && should_check_holder step h s.0
      then take_exist (exist pearl create_and_prepare_storage now key h) s
      else s

  unfoldable pub exist_rev : BobKey → Option ℕ → List (Holder S) → Option ℕ × Bool
  unfolding exist_one
  exist_rev key step [] = (none, false)
  exist_rev key step (h ∷ hs) = exist_one key step h (exist_rev key step hs)

  unfoldable pub exist_keys : List BobKey → Group S → Result (List Bool)
  unfolding exist_rev
  exist_keys keys g =
      if g.reinit_running
      then err holder_temporary_unavailable
      else ok (map (λ key. (exist_rev key g.safe_timestamp_step g.holders).1) keys)

  abbrev pub new_holder : ℕ → ℕ → Holder S
  new_holder period start = record {
    start_timestamp = start;
    end_timestamp = start + period;
    state = initializing;
    last_modification = 0;
  }

  -- `create_and_init_pearl`
  unfoldable pub create_and_init_pearl : Group S → Bool → ℕ → Option (Result (Holder S))
  create_and_init_pearl g round timestamp =
      elim (get_start_timestamp_by_timestamp max_time round g.timestamp_period timestamp) [
        | none ↦ none
        | some start ↦
            elim (prepare_storage pearl create_and_prepare_storage now
              (new_holder g.timestamp_period start)) [
                | none ↦ none
                | some (ok u, h) ↦ some (ok h)
                | some (err e, h) ↦ some (err e)
              ]
      ]

  -- The place and the holder to write to, and the group with it. The search is repeated under the
  -- lock for writers.
  unfoldable pub get_or_create_write_pearl :
      Group S → Bool → ℕ → Option (Result (ℕ × Holder S) × Group S)
  unfolding find_actual_holder create_and_init_pearl
  get_or_create_write_pearl g round timestamp = elim (find_actual_holder g.holders timestamp) [
    | some p ↦ some (ok p, g)
    | none ↦ elim (create_and_init_pearl g round timestamp) [
      | none ↦ none
      | some (ok h) ↦ some (ok (length g.holders, h), record g { holders = g.holders ++ h ∷ [] })
      | some (err e) ↦ some (err e, g)
    ]
  ]

  unfoldable pub get_or_create_actual_holder :
      Group S → Bool → ℕ → Option (Result (ℕ × Holder S) × Group S)
  unfolding get_or_create_write_pearl find_actual_holder
  get_or_create_actual_holder g round timestamp = elim (find_actual_holder g.holders timestamp) [
    | some p ↦ some (ok p, g)
    | none ↦ get_or_create_write_pearl g round timestamp
  ]

  unfoldable pub after_write : {A : Type 0} → Result A → Holder S → Option (Holder S)
  unfolding reinit_if
  after_write (ok a) h = some h
  after_write (err e) h = reinit_if (restarts_write e) h

  unfoldable pub put_common : BobKey → BobData → Holder S → Option (Result (Unit {0}) × Holder S)
  unfolding after_write
  put_common key d h =
      let (r, h') = write pearl create_and_prepare_storage now key d h in
      Option.map (λ k. (r, k)) (after_write r h')

  unfoldable pub put_at :
      BobKey → BobData → Result (ℕ × Holder S) → Group S → Option (Result (Unit {0}) × Group S)
  unfolding put_common
  put_at key d (err e) g = some (err e, g)
  put_at key d (ok (ind, h)) g =
      Option.map (λ p. (p.0, record g { holders = set g.holders ind p.1 })) (put_common key d h)

  unfoldable pub put : BobKey → BobData → Bool → Group S → Option (Result (Unit {0}) × Group S)
  unfolding get_or_create_actual_holder put_at
  put key d round g =
      if g.reinit_running
      then some (err holder_temporary_unavailable, g)
      else elim (get_or_create_actual_holder g round d.meta.timestamp) [
        | none ↦ none
        | some (r, g') ↦ put_at key d r g'
      ]

  unfoldable pub delete_common : BobKey → BobMeta → Bool → Holder S → Option (Result ℕ × Holder S)
  unfolding after_write
  delete_common key meta force_delete h =
      let (r, h') = delete pearl create_and_prepare_storage now key meta force_delete h in
      Option.map (λ k. (r, k)) (after_write r h')

  abbrev pub count_of : Result ℕ → ℕ
  count_of (ok c) = c
  count_of (err e) = 0

  -- From the last holder to the first, of those that start before the reference.
  unfoldable pub delete_in_holders_before :
      BobKey → BobMeta → ℕ → List (Holder S) → Option (ℕ × List (Holder S))
  unfolding delete_common
  delete_in_holders_before key meta reference [] = some (0, [])
  delete_in_holders_before key meta reference (h ∷ hs) =
      elim (delete_in_holders_before key meta reference hs) [
        | none ↦ none
        | some (count, hs') ↦
            if ltb h.start_timestamp reference
            then Option.map (λ p. (count + count_of p.0, p.1 ∷ hs'))
                (delete_common key meta false h)
            else some (count, h ∷ hs')
      ]

  unfoldable pub delete_before : BobKey → BobMeta → ℕ → ℕ → Group S → Option (Result ℕ × Group S)
  unfolding delete_in_holders_before
  delete_before key meta reference count g =
      Option.map (λ p. (ok (count + p.0), record g { holders = p.1 }))
        (delete_in_holders_before key meta reference g.holders)

  -- The forced delete in the actual holder, which comes first.
  unfoldable pub delete_in_actual_holder :
      BobKey → BobMeta → Result (ℕ × Holder S) → Group S → Option (Result ℕ × Group S)
  unfolding delete_common delete_before
  delete_in_actual_holder key meta (err e) g = some (err e, g)
  delete_in_actual_holder key meta (ok (ind, h)) g = elim (delete_common key meta true h) [
    | none ↦ none
    | some (err e, h') ↦ some (err e, record g { holders = set g.holders ind h' })
    | some (ok count, h') ↦
        delete_before key meta h.start_timestamp count (record g { holders = set g.holders ind h' })
  ]

  unfoldable pub delete_key : BobKey → BobMeta → Bool → Bool → Group S → Option (Result ℕ × Group S)
  unfolding delete_in_actual_holder get_or_create_actual_holder
  delete_key key meta round force_delete g =
      if g.reinit_running
      then some (err holder_temporary_unavailable, g)
      else (if force_delete
          then elim (get_or_create_actual_holder g round meta.timestamp) [
            | none ↦ none
            | some (r, g') ↦ delete_in_actual_holder key meta r g'
          ]
          else delete_before key meta meta.timestamp 0 g)

  -- A holder is attached at the rounded start of the given time.
  unfoldable pub attach : ℕ → Group S → Option (Result (Unit {0}) × Group S)
  unfolding create_and_init_pearl
  attach start_timestamp g =
      if any (λ h. eqb h.start_timestamp start_timestamp) g.holders
      then some (err (pearl_change_state "pearl already exists"), g)
      else elim (create_and_init_pearl g true start_timestamp) [
        | none ↦ none
        | some (ok h) ↦ some (ok tt, record g { holders = g.holders ++ h ∷ [] })
        | some (err e) ↦ some (err e, g)
      ]
