-- ===== src/Pearl/Group/Newest.antt =====
-- What the scan of `get` over the holders finds (bob-backend/src/pearl/group.rs).
pub mod Replies
use bob.Prelude.{
  Bool, Bool-cases, List, Member, Option, Option-cases, [], ap, arith, false, inl, inr, none, refl,
  some, subst, sym, true, ℕ, ◌+◌, ◌<◌, ◌∙◌, ◌∷◌, ◌≡◌, ◌≤◌, ◌⊎◌,
}
use mathlib.Core.Option
use bob.Data.{BobKey, BobData}
use bob.Error.{Result, ok, err}
use bob.Pearl.Storage.{ReadResult, found, deleted, not_found, PearlStorage}
use bob.Pearl.Holder.{Holder, read}
use bob.Pearl.Group.{
  Scan, is_newer, take_read, should_check_holder, after_read, get_common, scan_one, scan_rev,
}

abbrev pub Reading : Type 0
Reading = Option (Result (ReadResult BobData))

-- The timestamp of what was read.
abbrev pub time_of : Reading → Option ℕ
time_of (some (ok (found d))) = some d.meta.timestamp
time_of (some (ok (deleted ts))) = some ts
time_of (some (ok not_found)) = none
time_of (some (err e)) = none
time_of none = none

module _ {S : Type 0} (pearl : PearlStorage S) (create_and_prepare_storage : ℕ → Result S)
    (now max_time : ℕ) (is_possible : BobKey → Holder S → Bool) (key : BobKey) where
  abbrev pub says : Holder S → Reading
  says h = read pearl create_and_prepare_storage now key h

  unchecked :
      (step : Option ℕ) (h : Holder S) (max : Option ℕ)
      → should_check_holder step h max ≡ false
      → (m : ℕ) × (max ≡ some m) × ((st : ℕ) × (step ≡ some st) × (h.end_timestamp + st < m))
  unfolding should_check_holder
  unchecked none h max e = absurd (cc e)
  unchecked (some st) h none e = absurd (cc e)
  unchecked (some st) h (some m) e = (m, refl, (st, refl, ground (arith, e)))

  module _ (step : Option ℕ) where
    -- A holder that ends too long before the timestamp to have anything newer.
    abbrev pub Skipped : Holder S → ℕ → Type 0
    Skipped h m = (st : ℕ) × (step ≡ some st) × (h.end_timestamp + st < m)

    -- The scan of some holders: the timestamp reached is that of the data found or of a mark of
    -- deletion, and no holder has more, but for those skipped.
    pub record Scanned (hs : List (Holder S)) (s : Scan) : Type 0 where
      pub data_found :
          (d : BobData)
          → s.result ≡ some d
          → (s.max_timestamp ≡ some d.meta.timestamp)
            × ((h : Holder S) × Member h hs
                × (is_possible key h ≡ true)
                × (says h ≡ some (ok (found d))))
      pub mark_found :
          (m : ℕ)
          → s.result ≡ none
          → s.max_timestamp ≡ some m
          → (h : Holder S) × Member h hs
            × (is_possible key h ≡ true)
            × (says h ≡ some (ok (deleted m)))
      pub covers :
          (h : Holder S) (t : ℕ)
          → Member h hs
          → is_possible key h ≡ true
          → time_of (says h) ≡ some t
          → (m : ℕ) × (s.max_timestamp ≡ some m) × ((t ≤ m) ⊎ Skipped h m)

    -- A later maximum covers what an earlier one did.
    Later : Option ℕ → Option ℕ → Type 0
    Later before after = (m : ℕ) → before ≡ some m → (m' : ℕ) × (after ≡ some m') × (m ≤ m')

    Later-max :
        (before after : Option ℕ) (ts : ℕ)
        → is_newer before ts ≡ true
        → after ≡ some ts
        → Later before after
    unfolding Later
    Later-max none after ts w e = λ m f. absurd (cc f)
    Later-max (some x) after ts w e = λ m f. let q : x ≡ m = cc f in (ts, e, ground (arith, q))

    still_covered :
        (h : Holder S) (t : ℕ) (before after : Option ℕ)
        → Later before after
        → (m : ℕ) × (before ≡ some m) × ((t ≤ m) ⊎ Skipped h m)
        → (m : ℕ) × (after ≡ some m) × ((t ≤ m) ⊎ Skipped h m)
    unfolding Later
    still_covered h t before after l (m, e, c) =
        let (m', e', le) = l m e in
        (
          m',
          e',
          elim c [
            | inl a ↦ inl (omega (arith, a, le))
            | inr (st, f, a) ↦ inr (st, f, omega (arith, a, le))
          ],
        )

    -- A holder that adds nothing.
    skip :
        (h : Holder S) (hs : List (Holder S)) (s s' : Scan)
        → s'.max_timestamp ≡ s.max_timestamp
        → s'.result ≡ s.result
        → ((t : ℕ)
            → is_possible key h ≡ true
            → time_of (says h) ≡ some t
            → (m : ℕ) × (s.max_timestamp ≡ some m) × ((t ≤ m) ⊎ Skipped h m))
        → Scanned hs s
        → Scanned (h ∷ hs) s'
    skip h hs s s' em er c g = record {
      data_found =
          λ d e. let (a, (k, n, p, r)) = g.data_found d (sym er ∙ e) in (em ∙ a, (k, inr n, p, r));
      mark_found =
          λ m e f. let (k, n, p, r) = g.mark_found m (sym er ∙ e) (sym em ∙ f) in (k, inr n, p, r);
      covers = λ k t n p e. elim n [
        | inl q ↦
            let (m, a, b) =
              c t (ap (is_possible key) (sym q) ∙ p) (ap (λ x. time_of (says x)) (sym q) ∙ e) in
            (
              m,
              em ∙ a,
              elim b [ inl le ↦ inl le | inr sk ↦ inr (subst (λ x. Skipped x m) (sym q) sk) ],
            )
        | inr q ↦ let (m, a, b) = g.covers k t q p e in (m, em ∙ a, b)
      ];
    }

    -- A holder whose record is newer than all before.
    newer :
        (h : Holder S) (hs : List (Holder S)) (s s' : Scan) (ts : ℕ)
        → is_newer s.max_timestamp ts ≡ true
        → s'.max_timestamp ≡ some ts
        → time_of (says h) ≡ some ts
        → ((d : BobData)
            → s'.result ≡ some d
            → (d.meta.timestamp ≡ ts) × (says h ≡ some (ok (found d))))
        → (s'.result ≡ none → says h ≡ some (ok (deleted ts)))
        → is_possible key h ≡ true
        → Scanned hs s
        → Scanned (h ∷ hs) s'
    newer h hs s s' ts w em e fd fm p g = record {
      data_found = λ d r. let (a, b) = fd d r in (em ∙ ap some (sym a), (h, inl refl, p, b));
      mark_found = λ m r f.
          let q : ts ≡ m = cc (em, f) in (h, inl refl, p, fm r ∙ ap (λ x. some (ok (deleted x))) q);
      covers = λ k t n pk f. elim n [
        | inl q ↦
            let z : t ≡ ts = cc (ap (λ x. time_of (says x)) q, f, e) in
            (ts, em, inl (omega (arith, z)))
        | inr q ↦
            still_covered k t s.max_timestamp s'.max_timestamp
              (Later-max s.max_timestamp s'.max_timestamp ts w em) (g.covers k t q pk f)
      ];
    }

    older :
        (max : Option ℕ) (ts : ℕ) → is_newer max ts ≡ false → (m : ℕ) × (max ≡ some m) × (ts ≤ m)
    older none ts w = absurd (cc w)
    older (some m) ts w = (m, refl, ground arith)

    older_covers :
        (h : Holder S) (max : Option ℕ) (ts t : ℕ)
        → is_newer max ts ≡ false
        → some ts ≡ some t
        → (m : ℕ) × (max ≡ some m) × ((t ≤ m) ⊎ Skipped h m)
    older_covers h max ts t w e =
        let (m, f, le) = older max ts w in
        let q : ts ≡ t = cc e in (m, f, inl (omega (arith, le, q)))

    take_read-Scanned :
        (h : Holder S) (hs : List (Holder S)) (s : Scan) (r : Result (ReadResult BobData))
        → says h ≡ some r
        → is_possible key h ≡ true
        → Scanned hs s
        → Scanned (h ∷ hs) (take_read r s)
    unfolding take_read
    take_read-Scanned h hs s (ok (found d)) e p g =
        elim (Bool-cases (is_newer s.max_timestamp d.meta.timestamp)) [
          | inl w ↦ rw w (
              newer h hs s (record s { max_timestamp = some d.meta.timestamp; result = some d })
                d.meta.timestamp w refl (ap time_of e)
                (λ c f.
                  let q : d ≡ c = cc f in
                  (ap (λ x. x.meta.timestamp) (sym q), e ∙ ap (λ x. some (ok (found x))) q))
                (λ f. absurd (cc f)) p g)
          | inr w ↦ rw w (
              skip h hs s s refl refl
                (λ t k f.
                  older_covers h s.max_timestamp d.meta.timestamp t w (sym (ap time_of e) ∙ f))
                g)
        ]
    take_read-Scanned h hs s (ok (deleted ts)) e p g =
        elim (Bool-cases (is_newer s.max_timestamp ts)) [
          | inl w ↦ rw w (
              newer h hs s (record s { max_timestamp = some ts; result = none }) ts w refl
                (ap time_of e) (λ c f. absurd (cc f)) (λ f. e) p g)
          | inr w ↦ rw w (
              skip h hs s s refl refl
                (λ t k f. older_covers h s.max_timestamp ts t w (sym (ap time_of e) ∙ f)) g)
        ]
    take_read-Scanned h hs s (ok not_found) e p g =
        skip h hs s s refl refl (λ t k f. absurd (cc (sym (ap time_of e) ∙ f))) g
    take_read-Scanned h hs s (err x) e p g =
        skip h hs s (record s { has_error = true }) refl refl
          (λ t k f. absurd (cc (sym (ap time_of e) ∙ f))) g

    pub get_common-read :
        (h h' : Holder S) (r : Result (ReadResult BobData))
        → get_common pearl create_and_prepare_storage now max_time is_possible key h ≡ some (r, h')
        → says h ≡ some r
    unfolding get_common
    get_common-read h h' r e = elim (Option-cases (says h)) [
      | inl f ↦ absurd (cc (rw (get_common, f) at e))
      | inr (q, f) ↦
          elim (Option-cases
            (after_read pearl create_and_prepare_storage now max_time is_possible q h)) [
              | inl n ↦ absurd (cc (rw (get_common, f, n) at e))
              | inr (k, n) ↦ let same : q ≡ r = cc (rw (get_common, f, n) at e) in f ∙ ap some same
            ]
    ]

    scan_one-Scanned :
        (h h' : Holder S) (hs : List (Holder S)) (s s' : Scan)
        → scan_one pearl create_and_prepare_storage now max_time is_possible key step h s
          ≡ some (s', h')
        → Scanned hs s
        → Scanned (h ∷ hs) s'
    unfolding scan_one
    scan_one-Scanned h h' hs s s' e g = elim (Bool-cases (is_possible key h)) [
      | inr p ↦
          let f : s ≡ s' = cc (rw p at e) in
          subst (Scanned (h ∷ hs)) f (skip h hs s s refl refl (λ t k q. absurd (cc (k, p))) g)
      | inl p ↦ elim (Bool-cases (should_check_holder step h s.max_timestamp)) [
        | inr c ↦
            let f : s ≡ s' = cc (rw (p, c) at e) in
            let (m, a, b) = unchecked step h s.max_timestamp c in
            subst (Scanned (h ∷ hs)) f (skip h hs s s refl refl (λ t k q. (m, a, inr b)) g)
        | inl c ↦
            elim (Option-cases
              (get_common pearl create_and_prepare_storage now max_time is_possible key h)) [
                | inl n ↦ absurd (cc (rw (p, c, n) at e))
                | inr ((r, k), n) ↦
                    let f : take_read r s ≡ s' = cc (rw (p, c, n) at e) in
                    subst (Scanned (h ∷ hs)) f
                      (take_read-Scanned h hs s r (get_common-read h k r n) p g)
              ]
      ]
    ]

    pub scan_rev-Scanned :
        (hs hs' : List (Holder S)) (s : Scan)
        → scan_rev pearl create_and_prepare_storage now max_time is_possible key step hs
          ≡ some (s, hs')
        → Scanned hs s
    unfolding scan_rev
    scan_rev-Scanned [] hs' s e =
        let f : record { max_timestamp = none; result = none; has_error = false } ≡ s = cc e in
        subst (Scanned []) f (record {
          data_found = λ d q. absurd (cc q);
          mark_found = λ m q z. absurd (cc z);
          covers = λ h t m. absurd m;
        })
    scan_rev-Scanned (h ∷ hs) hs' s e =
        elim (Option-cases
          (scan_rev pearl create_and_prepare_storage now max_time is_possible key step hs)) [
            | inl n ↦ absurd (cc (rw (scan_rev, n) at e))
            | inr ((s0, hs0), n) ↦
                elim (Option-cases (
                  scan_one pearl create_and_prepare_storage now max_time is_possible key step h
                    s0)) [
                      | inl k ↦ absurd (cc (rw (scan_rev, n, k) at e))
                      | inr ((s1, h1), k) ↦
                          let f : s1 ≡ s = cc (rw (scan_rev, n, k) at e) in
                          subst (Scanned (h ∷ hs)) f
                            (scan_one-Scanned h h1 hs s0 s1 k (scan_rev-Scanned hs hs0 s0 n))
                    ]
          ]
