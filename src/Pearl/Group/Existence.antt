-- ===== src/Pearl/Group/Existence.antt =====
-- `exist` of a group against `get` (bob-backend/src/pearl/group.rs).
use bob.Prelude.{
  Bool, Bool-cases, List, Member, Option, Option-cases, [], ap, false, inl, inr, is_some, none,
  refl, some, sym, ℕ, ◌&&◌, ◌∙◌, ◌∷◌, ◌≡◌,
}
use bob.Data.{BobKey, BobData}
use bob.Error.{Result, ok, err, is_ok}
use bob.Pearl.Storage.{ReadResult, found, deleted, not_found, PearlStorage}
use bob.Pearl.Holder.{Holder, exist}
use bob.Pearl.Group.{
  Group, Scan, is_newer, take_read, take_exist, should_check_holder, get_common, scan_one, scan_rev,
  exist_one, exist_rev, reply_of_scan, get, exist_keys,
}
use bob.Pearl.Group.Newest.{Reading, says, get_common-read}

-- What is read, with the timestamp in place of the data.
abbrev pub stamp_of : Reading → Option (Result (ReadResult ℕ))
stamp_of (some (ok (found d))) = some (ok (found d.meta.timestamp))
stamp_of (some (ok (deleted ts))) = some (ok (deleted ts))
stamp_of (some (ok not_found)) = some (ok not_found)
stamp_of (some (err e)) = some (err e)
stamp_of none = none

abbrev seen : Scan → Option ℕ × Bool
seen s = (s.max_timestamp, is_some s.result)

seen-take_read :
    (s : Scan) (r : Result (ReadResult BobData)) (x : Result (ReadResult ℕ))
    → stamp_of (some r) ≡ some x
    → seen (take_read r s) ≡ take_exist x (seen s)
unfolding take_read take_exist
seen-take_read s (ok (found d)) x e =
    let q : ok (found d.meta.timestamp) ≡ x = cc e in
    rw (← q) (elim (Bool-cases (is_newer s.max_timestamp d.meta.timestamp)) [
      | inl w ↦ rw w refl
      | inr w ↦ rw w refl
    ])
seen-take_read s (ok (deleted ts)) x e =
    let q : ok (deleted ts) ≡ x = cc e in
    rw (← q)
      (elim (Bool-cases (is_newer s.max_timestamp ts)) [ inl w ↦ rw w refl | inr w ↦ rw w refl ])
seen-take_read s (ok not_found) x e = let q : ok not_found ≡ x = cc e in rw (← q) refl
seen-take_read s (err y) x e = let q : err y ≡ x = cc e in rw (← q) refl

module _ {S : Type 0} (pearl : PearlStorage S) (create_and_prepare_storage : ℕ → Result S)
    (now max_time : ℕ) (is_possible : BobKey → Holder S → Bool) (key : BobKey) where
  -- The storage of the holder tells of the key what reading it gives.
  abbrev pub Agrees : Holder S → Type 0
  Agrees h =
      stamp_of (says pearl create_and_prepare_storage now max_time is_possible key h)
      ≡ some (exist pearl create_and_prepare_storage now key h)

  seen-scan_one :
      (step : Option ℕ) (h h' : Holder S) (s s' : Scan)
      → Agrees h
      → scan_one pearl create_and_prepare_storage now max_time is_possible key step h s
        ≡ some (s', h')
      → seen s'
        ≡ exist_one pearl create_and_prepare_storage now max_time is_possible key step h (seen s)
  unfolding scan_one exist_one
  seen-scan_one step h h' s s' a e =
      elim (Bool-cases (is_possible key h && should_check_holder step h s.max_timestamp)) [
        | inr c ↦ let f : s ≡ s' = cc (rw (scan_one, c) at e) in rw (← f, c) refl
        | inl c ↦
            elim (Option-cases
              (get_common pearl create_and_prepare_storage now max_time is_possible key h)) [
                | inl n ↦ absurd (cc (rw (scan_one, c, n) at e))
                | inr ((r, k), n) ↦
                    let f : take_read r s ≡ s' = cc (rw (scan_one, c, n) at e) in
                    let q =
                      get_common-read pearl create_and_prepare_storage now max_time is_possible key
                        step h k r n in
                    rw (← f, c) (seen-take_read s r _ (sym (ap stamp_of q) ∙ a))
              ]
      ]

  seen-scan_rev :
      (step : Option ℕ) (hs hs' : List (Holder S)) (s : Scan)
      → ((h : Holder S) → Member h hs → Agrees h)
      → scan_rev pearl create_and_prepare_storage now max_time is_possible key step hs
        ≡ some (s, hs')
      → seen s ≡ exist_rev pearl create_and_prepare_storage now max_time is_possible key step hs
  unfolding scan_rev exist_rev
  seen-scan_rev step [] hs' s a e =
      let f : record { max_timestamp = none; result = none; has_error = false } ≡ s = cc e in
      ap seen (sym f)
  seen-scan_rev step (h ∷ hs) hs' s a e =
      elim (Option-cases
        (scan_rev pearl create_and_prepare_storage now max_time is_possible key step hs)) [
          | inl n ↦ absurd (cc (rw (scan_rev, n) at e))
          | inr ((s0, hs0), n) ↦
              elim (Option-cases (
                scan_one pearl create_and_prepare_storage now max_time is_possible key step h s0)) [
                  | inl k ↦ absurd (cc (rw (scan_rev, n, k) at e))
                  | inr ((s1, h1), k) ↦
                      let f : s1 ≡ s = cc (rw (scan_rev, n, k) at e) in
                      sym (ap seen f)
                      ∙ seen-scan_one step h h1 s0 s1 (a h (inl refl)) k
                      ∙ ap
                          (exist_one pearl create_and_prepare_storage now max_time is_possible key
                            step h)
                          (seen-scan_rev step hs hs0 s0 (λ x m. a x (inr m)) n)
                ]
        ]

  is_ok-reply_of_scan :
      (s : Scan) (o : Option BobData)
      → s.result ≡ o
      → is_ok (reply_of_scan key s) ≡ is_some s.result
  unfolding reply_of_scan
  is_ok-reply_of_scan s (some d) e = rw e refl
  is_ok-reply_of_scan s none e = elim (Bool-cases s.has_error) [
    | inl b ↦ rw (reply_of_scan, e, b) refl
    | inr b ↦ rw (reply_of_scan, e, b) refl
  ]

  -- While the group is not remounted, with storages that tell of the key what reading it gives:
  -- `exist` answers that the key is there exactly if `get` replies with data.
  pub exist_keys-get :
      (g g' : Group S) (r : Result BobData)
      → g.reinit_running ≡ false
      → ((h : Holder S) → Member h g.holders → Agrees h)
      → get pearl create_and_prepare_storage now max_time is_possible key g ≡ some (r, g')
      → exist_keys pearl create_and_prepare_storage now max_time is_possible (key ∷ []) g
        ≡ ok (is_ok r ∷ [])
  unfolding get exist_keys
  exist_keys-get g g' r n a e =
      elim (Option-cases (
        scan_rev pearl create_and_prepare_storage now max_time is_possible key g.safe_timestamp_step
          g.holders)) [
            | inl f ↦ absurd (cc (rw (get, n, f) at e))
            | inr ((s, hs), f) ↦
                let q : reply_of_scan key s ≡ r = cc (rw (get, n, f) at e) in
                let z = seen-scan_rev g.safe_timestamp_step g.holders hs s a f in
                rw (n, ← q, ← z, is_ok-reply_of_scan s s.result refl) refl
          ]
