-- ===== src/Pearl/Group/Writing/Placed.antt =====
-- The data of a successful `put` lie in a holder whose period has their timestamp
-- (bob-backend/src/pearl/group.rs).
use bob.Prelude.{
  Bool, Bool-cases, Option-cases, [], ap, arith, get_elem?, get_elem?-last, get_elem?-set, inl, inr,
  length, refl, set, some, subst, sym, true, ℕ, ◌++◌, ◌+◌, ◌<◌, ◌∷◌, ◌≡◌, ◌≤◌, ◌⊎◌,
}
use bob.Data.{BobKey, BobData, to_serialized_bytes}
use bob.Error.{Error, Result, ok, err}
use bob.Pearl.Timestamps.{day}
use bob.Pearl.Timestamps.Search.{get_start_timestamp-IsPeriodStart}
use bob.Pearl.Storage.{PearlResult, done, failure, PearlStorage}
use bob.Pearl.Holder.{
  Holder, initializing, running, get_storage, set_ready, set_opened, prepare_storage,
  gets_into_interval, write, write_to, write_result,
}
use bob.Pearl.Group.{
  Group, find_actual_holder, create_and_init_pearl, get_or_create_actual_holder,
  get_or_create_write_pearl, after_write, put_common, put_at, put, new_holder,
}
use bob.Pearl.Group.Writing.{find_actual_holder-lem}

module _ {S : Type 0} (pearl : PearlStorage S) (create_and_prepare_storage : ℕ → Result S)
    (now max_time : ℕ) (is_possible : BobKey → Holder S → Bool) where
  set_opened-period :
      (r : Result S) (h h' : Holder S)
      → set_opened pearl create_and_prepare_storage now r h ≡ some (ok tt, h')
      → h.state ≡ initializing
      → (h'.start_timestamp ≡ h.start_timestamp) × (h'.end_timestamp ≡ h.end_timestamp)
  unfolding set_opened set_ready
  set_opened-period (err x) h h' e i = absurd (cc e)
  set_opened-period (ok st) h h' e i =
      let q : record h { state = running st } ≡ h' = cc (rw (set_opened, i, set_ready) at e) in
      (ap (λ x. x.start_timestamp) (sym q), ap (λ x. x.end_timestamp) (sym q))

  write_result-done : (o : PearlResult (Unit {0})) → write_result o ≡ ok tt → o ≡ done tt
  write_result-done (done u) e = refl
  write_result-done (failure x) e = absurd (cc e)

  write-done :
      (key : BobKey) (d : BobData) (h : Holder S)
      → (write pearl create_and_prepare_storage now key d h).0 ≡ ok tt
      → (st : S) × ((pearl.write key (to_serialized_bytes d) d.meta.timestamp st).0 ≡ done tt)
        × ((write pearl create_and_prepare_storage now key d h).1 ≡ record h {
          state = running (pearl.write key (to_serialized_bytes d) d.meta.timestamp st).1;
          last_modification = now;
        })
  unfolding write write_to
  write-done key d h e = elim (Option-cases (get_storage h.state)) [
    | inl f ↦ absurd (cc (rw (write, f, write_to) at e))
    | inr (st, f) ↦
        (st, write_result-done _ (rw (write, f, write_to) at e), rw (write, f, write_to) refl)
  ]

  -- The data were taken by the storage of a holder of the group, whose period has the timestamp.
  abbrev pub Placed : BobKey → BobData → Group S → Type 0
  Placed key d g =
      (i : ℕ) × (h : Holder S) × (st : S) × (get_elem? g.holders i ≡ some h)
      × (gets_into_interval h d.meta.timestamp ≡ true)
      × ((pearl.write key (to_serialized_bytes d) d.meta.timestamp st).0 ≡ done tt)
      × (h.state ≡ running (pearl.write key (to_serialized_bytes d) d.meta.timestamp st).1)

  put_at-Placed :
      (key : BobKey) (d : BobData) (i : ℕ) (x h : Holder S) (g g' : Group S)
      → get_elem? g.holders i ≡ some x
      → gets_into_interval h d.meta.timestamp ≡ true
      → put_at pearl create_and_prepare_storage now max_time is_possible key d (ok (i, h)) g
        ≡ some (ok tt, g')
      → Placed key d g'
  unfolding put_at put_common after_write
  put_at-Placed key d i x h g g' a b e =
      elim (result_cases (write pearl create_and_prepare_storage now key d h).0) [
        | inr (y, w) ↦
            elim (Option-cases (
              after_write pearl create_and_prepare_storage now max_time is_possible {A = Unit {0}}
                (err y) (write pearl create_and_prepare_storage now key d h).1)) [
                  | inl n ↦ absurd (cc (rw (put_at, put_common, w, n) at e))
                  | inr (k, n) ↦ absurd (cc (rw (put_at, put_common, w, n) at e))
                ]
        | inl w ↦
            let (st, p, q) = write-done key d h w in
            let k : Holder S = (write pearl create_and_prepare_storage now key d h).1 in
            let z : record g { holders = set g.holders i k } ≡ g' =
              cc (rw (put_at, put_common, w, after_write) at e) in
            let placed : Placed key d (record g { holders = set g.holders i k }) =
              (i, k, st, get_elem?-set g.holders i x k a, rw q b, p, ap (λ y. y.state) q) in
            subst (Placed key d) z placed
      ]
    where
      result_cases : (r : Result (Unit {0})) → (r ≡ ok tt) ⊎ ((y : Error) × (r ≡ err y))
      result_cases (ok u) = inl refl
      result_cases (err y) = inr (y, refl)

  falls_into :
      (period time start : ℕ) (h : Holder S)
      → h.start_timestamp ≡ start
      → h.end_timestamp ≡ start + period
      → start ≤ time
      → time < start + period
      → gets_into_interval h time ≡ true
  falls_into period time start h a b l u = rw (a, b) (ground (arith, l, u))

  created :
      (g : Group S) (time : ℕ) (h : Holder S)
      → 0 < g.timestamp_period
      → g.timestamp_period ≤ day
      → time ≤ max_time
      → create_and_init_pearl pearl create_and_prepare_storage now max_time is_possible g true time
        ≡ some (ok h)
      → gets_into_interval h time ≡ true
  unfolding create_and_init_pearl prepare_storage
  created g time h p q m e =
      let (start, f, (l, u, k)) =
        get_start_timestamp-IsPeriodStart max_time g.timestamp_period time p q m in
      let fresh : Holder S =
        new_holder pearl create_and_prepare_storage now max_time is_possible g.timestamp_period
          start in
      elim (Option-cases (prepare_storage pearl create_and_prepare_storage now fresh)) [
        | inl n ↦ absurd (cc (rw (create_and_init_pearl, f, n) at e))
        | inr ((err y, x), n) ↦ absurd (cc (rw (create_and_init_pearl, f, n) at e))
        | inr ((ok u', x), n) ↦
            let same : x ≡ h = cc (rw (create_and_init_pearl, f, n) at e) in
            let (a, b) = set_opened-period (create_and_prepare_storage start) fresh x n refl in
            subst (λ y. gets_into_interval y time ≡ true) same
              (falls_into g.timestamp_period time start x a b l u)
      ]

  -- For periods of one second to one day, and data whose timestamp is a date: after a `put` that
  -- succeeds, with the start of a new holder rounded, a holder of the group whose period has the
  -- timestamp is running with a storage that took the data without an error.
  pub put-Placed :
      (key : BobKey) (d : BobData) (g g' : Group S)
      → 0 < g.timestamp_period
      → g.timestamp_period ≤ day
      → d.meta.timestamp ≤ max_time
      → put pearl create_and_prepare_storage now max_time is_possible key d true g
        ≡ some (ok tt, g')
      → Placed key d g'
  unfolding put get_or_create_actual_holder get_or_create_write_pearl
  put-Placed key d g g' p q m e = elim (Bool-cases g.reinit_running) [
    | inl b ↦ absurd (cc (rw (put, b) at e))
    | inr b ↦ elim (Option-cases (find_actual_holder g.holders d.meta.timestamp)) [
      | inr ((i, h), f) ↦
          let (a, c) = (find_actual_holder-lem d.meta.timestamp g.holders).0 i h f in
          put_at-Placed key d i h h g g' a c (rw (put, b, get_or_create_actual_holder, f) at e)
      | inl f ↦
          elim (Option-cases (
            create_and_init_pearl pearl create_and_prepare_storage now max_time is_possible g true
              d.meta.timestamp)) [
                | inl n ↦ absurd (
                    cc (
                      rw (put, b, get_or_create_actual_holder, f, get_or_create_write_pearl, f, n)
                        at e))
                | inr (err y, n) ↦ absurd (
                    cc (
                      rw
                        (
                          put, b, get_or_create_actual_holder, f, get_or_create_write_pearl, f, n,
                          put_at,
                        )
                        at e))
                | inr (ok h, n) ↦
                    put_at-Placed key d (length g.holders) h h
                      (record g { holders = g.holders ++ h ∷ [] }) g' (get_elem?-last g.holders h)
                      (created g d.meta.timestamp h p q m n)
                      (rw (put, b, get_or_create_actual_holder, f, get_or_create_write_pearl, f, n)
                        at e)
              ]
    ]
  ]
