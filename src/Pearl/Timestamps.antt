-- ===== src/Pearl/Timestamps.antt =====
-- The start of the period that a timestamp falls into (bob-backend/src/pearl/utils.rs). Times are
-- seconds since the epoch; `chrono` refuses those above `max_time`. A week's start may lie before
-- the epoch, so the times of the search are counted from one week before it. A panic is `none`.
pub mod Search
use bob.Prelude.{
  Bool, Option, eqb, false, if◌then◌else◌, leb, ltb, none, some, suc, true, zero, ℕ, ◌%◌, ◌&&◌, ◌*◌,
  ◌+◌, ◌-◌, ◌/◌,
}
use mathlib.Core.Option

abbrev pub day : ℕ
day = 86400

abbrev pub week : ℕ
week = 604800

-- `while !(start_time <= time && time < start_time + period)`, with fuel.
unfoldable pub advance : ℕ → ℕ → ℕ → ℕ → Option ℕ
advance zero period time start_time = none
advance (suc fuel) period time start_time =
    elim (leb start_time time && ltb time (start_time + period)) [
      | true ↦ some start_time
      | false ↦ advance fuel period time (start_time + period)
    ]

-- `num_days_from_monday`: the epoch was a Thursday.
abbrev pub num_days_from_monday : ℕ → ℕ
num_days_from_monday time = (time / day + 3) % 7

-- The time that the search starts at; the day before a Monday's number, 0, underflows, and the
-- difference in days is out of the range of dates.
unfoldable pub rough_start : ℕ → ℕ → Option ℕ
rough_start period time =
    if leb period day
    then some (week + (time - time % day))
    else (if leb period week
        then (if eqb (num_days_from_monday time) 0
            then none
            else some (week + (time - time % day) - (num_days_from_monday time - 1) * day))
        else none)

-- `timestamp().try_into().unwrap()` to an unsigned number.
abbrev pub from_shifted : ℕ → Option ℕ
from_shifted time = if leb week time then some (time - week) else none

unfoldable pub search_from : ℕ → ℕ → Option ℕ → Option ℕ
unfolding advance
search_from period time none = none
search_from period time (some start_time) =
    elim (advance (suc (week + time)) period (week + time) start_time) [
      | none ↦ none
      | some found ↦ from_shifted found
    ]

module _ (max_time : ℕ) where
  unfoldable pub get_start_timestamp_by_timestamp : Bool → ℕ → ℕ → Option ℕ
  unfolding search_from rough_start
  get_start_timestamp_by_timestamp round period time =
      if ltb max_time time
      then none
      else (if round then search_from period time (rough_start period time) else some time)
