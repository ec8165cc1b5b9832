-- ===== src/Pearl/Timestamps/Search.antt =====
-- The search for the start of a period ends, and the period contains the timestamp
-- (bob-backend/src/pearl/utils.rs).
use bob.Prelude.{
  arith, dec_lt, le→leb, le→ltb, refl, some, suc, true, zero, ℕ, ◌%◌, ◌*◌, ◌+◌, ◌-◌, ◌<◌, ◌≡◌, ◌≤◌,
}
use native.Mathlib.Nat.{suc-mul}
use bob.Pearl.Timestamps.{
  day, week, advance, rough_start, search_from, get_start_timestamp_by_timestamp,
}

-- The start that the loop finds from one that is not later: steps of a period from it.
abbrev pub IsPeriodStart : ℕ → ℕ → ℕ → ℕ → Type 0
IsPeriodStart period time from start =
    (start ≤ time) × (time < start + period) × ((k : ℕ) × (start ≡ from + k * period))

further : (from period k s : ℕ) → s ≡ (from + period) + k * period → s ≡ from + suc k * period
further from period k s e = omega (arith, e, suc-mul k period)

advance-IsPeriodStart :
    (fuel period time start_time : ℕ)
    → 0 < period
    → start_time ≤ time
    → time < start_time + fuel
    → (s : ℕ) × (advance fuel period time start_time ≡ some s)
      × IsPeriodStart period time start_time s
unfolding advance
advance-IsPeriodStart zero period time start_time p h f = absurd (omega (arith, h, f))
advance-IsPeriodStart (suc fuel) period time start_time p h f =
    elim (dec_lt time (start_time + period)) [
      | yes l ↦ (start_time, ground (arith, h, l), (h, l, (0, omega arith)))
      | no n ↦
          let (s, e, (a, b, (k, c))) =
            advance-IsPeriodStart fuel period time (start_time + period) p (omega (arith, n))
              (omega (arith, p, f)) in
          (s, ground (arith, e, n), (a, b, (suc k, further start_time period k s c)))
    ]

shifted :
    (start period k time : ℕ)
    → start ≡ (week + (time - time % day)) + k * period
    → (week ≤ start) × (start - week ≡ (time - time % day) + k * period)
shifted start period k time e = (omega (arith, e), omega (arith, e))

search_from-found :
    (period time start found : ℕ)
    → advance (suc (week + time)) period (week + time) start ≡ some found
    → week ≤ found
    → search_from period time (some start) ≡ some (found - week)
unfolding search_from
search_from-found period time start found e f = rw (search_from, e, le→leb week found f) refl

pub get_start_timestamp-IsPeriodStart :
    (max_time period time : ℕ)
    → 0 < period
    → period ≤ day
    → time ≤ max_time
    → (s : ℕ) × (get_start_timestamp_by_timestamp max_time true period time ≡ some s)
      × IsPeriodStart period time (time - time % day) s
unfolding get_start_timestamp_by_timestamp rough_start
get_start_timestamp-IsPeriodStart max_time period time p d m =
    let begins : ℕ = week + (time - time % day) in
    let (s, e, (a, b, (k, c))) =
      advance-IsPeriodStart (suc (week + time)) period (week + time) begins p (omega arith)
        (omega arith) in
    let (f, g) = shifted s period k time c in
    (
      s - week,
      rw (le→ltb max_time time m, le→leb period day d) (search_from-found period time begins s e f),
      (omega (arith, a), omega (arith, b, f), (k, g)),
    )
