-- ===== src/Mapper/Offset/Uniform.antt =====
-- Where the search for support nodes starts (bob-common/src/mapper.rs).
use native.Mathlib.Nat.{mod-lt}
use bob.Prelude.{
  Bool, Bool-cases, List, Option, [], ap, arith, dec_le, dec_lt, eqb, get_elem?, gt→leb,
  if◌then◌else◌, inl, inr, length, le→leb, le→ltb, lt→ltb, none, refl, some, suc, true, zero, ℕ,
  ◌%◌, ◌+◌, ◌-◌, ◌<◌, ◌∙◌, ◌∷◌, ◌≡◌, ◌≤◌, ◌⊎◌,
}
use bob.Node.{Node}
use bob.Mapper.Offset.{
  is_available, pass_from, try_find_support_node_offset_at_one_pass, asserted_pass, retry,
  is_searching, checked_rem, find_support_node_offset, ltb, SupportIndexResult,
}

-- The positions, from `i` on, of the nodes that are connected and not targets.
abbrev pub available_indices : List Node → ℕ → List Node → List ℕ
available_indices targets i [] = []
available_indices targets i (node ∷ nodes) =
    let rest = available_indices targets (i + 1) nodes in
    if is_available targets node then i ∷ rest else rest

module _ (targets : List Node) (offset : ℕ) where
  -- A pass finds the available node that has `offset` available ones before it.
  pass_from-index :
      (i : ℕ) (nodes : List Node) (avail : ℕ)
      → avail ≤ offset
      → (pass_from targets offset i nodes avail).index
        ≡ get_elem? (available_indices targets i nodes) (offset - avail)
  unfolding pass_from
  pass_from-index i [] avail h = refl
  pass_from-index i (node ∷ nodes) avail h = elim (Bool-cases (is_available targets node)) [
    | inl e ↦ rw e (elim (Bool-cases (eqb avail offset)) [
      | inl f ↦ rw f (ground (arith))
      | inr f ↦
          let g : offset - avail ≡ suc (offset - (avail + 1)) = ground arith in
          rw (f, g) (pass_from-index (i + 1) nodes (avail + 1) (ground arith))
    ])
    | inr e ↦ rw e (pass_from-index (i + 1) nodes avail h)
  ]

  -- A pass that finds none has counted all of them.
  pass_from-avail :
      (i : ℕ) (nodes : List Node) (avail : ℕ)
      → avail ≤ offset
      → (pass_from targets offset i nodes avail).index ≡ none
      → (pass_from targets offset i nodes avail).avail
        ≡ avail + length (available_indices targets i nodes)
  unfolding pass_from
  pass_from-avail i [] avail h e = omega arith
  pass_from-avail i (node ∷ nodes) avail h e =
      ground
        (arith, pass_from-avail (i + 1) nodes avail h, pass_from-avail (i + 1) nodes (avail + 1))

available_indices-lt :
    (targets : List Node) (i : ℕ) (nodes : List Node) (k j : ℕ)
    → get_elem? (available_indices targets i nodes) k ≡ some j
    → j < i + length nodes
available_indices-lt targets i [] k j e = cc
available_indices-lt targets i (node ∷ nodes) zero j e =
    ground (arith, available_indices-lt targets (i + 1) nodes zero j)
available_indices-lt targets i (node ∷ nodes) (suc k) j e = ground (
  arith,
  available_indices-lt targets (i + 1) nodes k j,
  available_indices-lt targets (i + 1) nodes (suc k) j,
)

get_elem?-lt : (xs : List ℕ) (k : ℕ) → k < length xs → (x : ℕ) × (get_elem? xs k ≡ some x)
get_elem?-lt [] k h = elim h [ ]
get_elem?-lt (x ∷ xs) zero h = (x, refl)
get_elem?-lt (x ∷ xs) (suc k) h = get_elem?-lt xs k (omega arith)

get_elem?-none : (xs : List ℕ) (k : ℕ) → length xs ≤ k → get_elem? xs k ≡ none
get_elem?-none [] k h = refl
get_elem?-none (x ∷ xs) zero h = elim h [ ]
get_elem?-none (x ∷ xs) (suc k) h = get_elem?-none xs k (omega arith)

available_indices-length :
    (targets : List Node) (i : ℕ) (nodes : List Node)
    → length (available_indices targets i nodes) ≤ length nodes
available_indices-length targets i [] = omega arith
available_indices-length targets i (node ∷ nodes) =
    ground (arith, available_indices-length targets (i + 1) nodes)

module _ (debug_assertions : Bool) (nodes targets : List Node) where
  abbrev av : List ℕ
  av = available_indices targets 0 nodes

  try_index :
      (k : ℕ) → (try_find_support_node_offset_at_one_pass nodes targets k).index ≡ get_elem? av k
  unfolding try_find_support_node_offset_at_one_pass
  try_index k = pass_from-index targets k 0 nodes 0 (omega arith) ∙ ap (get_elem? av) (omega arith)

  try_avail :
      (k : ℕ)
      → (try_find_support_node_offset_at_one_pass nodes targets k).index ≡ none
      → (try_find_support_node_offset_at_one_pass nodes targets k).avail ≡ length av
  unfolding try_find_support_node_offset_at_one_pass
  try_avail k e = omega (arith, pass_from-avail targets k 0 nodes 0 (omega arith) e)

  asserted :
      (k : ℕ)
      → k ≤ length nodes
      → asserted_pass debug_assertions nodes targets k
        ≡ some (try_find_support_node_offset_at_one_pass nodes targets k)
  unfolding asserted_pass
  asserted k h =
      let fits = le→leb k (length nodes) h in
      elim (Bool-cases debug_assertions) [
        | inl e ↦ rw (asserted_pass, e, fits) refl
        | inr e ↦ rw (asserted_pass, e) refl
      ]

  retry_hit :
      (fuel c j : ℕ) (res : SupportIndexResult)
      → res.index ≡ some j
      → retry debug_assertions fuel nodes targets c res ≡ some res
  unfolding retry is_searching
  retry_hit zero c j res e = simp (is_searching, e)
  retry_hit (suc fuel) c j res e = simp (retry, is_searching, e)

  retry_stop :
      (fuel c : ℕ) (res : SupportIndexResult)
      → res.index ≡ none
      → res.avail ≡ 0
      → retry debug_assertions (suc fuel) nodes targets c res ≡ some res
  unfolding retry is_searching
  retry_stop fuel c res e z = simp (retry, is_searching, e, z)

  retry_miss :
      (fuel c j : ℕ) (res : SupportIndexResult)
      → res.index ≡ none
      → 0 < res.avail
      → c ≤ length nodes
      → (try_find_support_node_offset_at_one_pass nodes targets c).index ≡ some j
      → retry debug_assertions (suc fuel) nodes targets c res
        ≡ some (try_find_support_node_offset_at_one_pass nodes targets c)
  unfolding retry is_searching
  retry_miss fuel c j res e p b f =
      let on : is_searching res ≡ true = rw (is_searching, e) (lt→ltb 0 res.avail p) in
      rw (retry, on, asserted c b) (retry_hit fuel _ j _ f)

  -- What the loop makes of a pass at `k`, with any fuel.
  abbrev after_pass : ℕ → ℕ → ℕ → Option SupportIndexResult
  after_pass fuel offset k =
      let res = try_find_support_node_offset_at_one_pass nodes targets k in
      retry debug_assertions (suc fuel) nodes targets (offset % res.avail) res

  retry_found :
      (fuel offset k j : ℕ)
      → get_elem? av k ≡ some j
      → after_pass fuel offset k ≡ some (try_find_support_node_offset_at_one_pass nodes targets k)
  retry_found fuel offset k j e = retry_hit (suc fuel) _ j _ (try_index k ∙ e)

  retry_wrapped :
      (fuel offset k j : ℕ)
      → length av ≤ k
      → 0 < length av
      → get_elem? av (offset % length av) ≡ some j
      → after_pass fuel offset k
        ≡ some (try_find_support_node_offset_at_one_pass nodes targets (offset % length av))
  retry_wrapped fuel offset k j h p e =
      let none_at = try_index k ∙ get_elem?-none av k h in
      let counted = try_avail k none_at in
      let bound : offset % length av ≤ length nodes =
        omega (arith, mod-lt offset p, available_indices-length targets 0 nodes) in
      rw counted (
        retry_miss fuel (offset % length av) j _ none_at (omega arith) bound
          (try_index (offset % length av) ∙ e))

  retry_none :
      (fuel offset k : ℕ)
      → length av ≡ 0
      → after_pass fuel offset k ≡ some (try_find_support_node_offset_at_one_pass nodes targets k)
  retry_none fuel offset k z =
      let none_at = try_index k ∙ get_elem?-none av k (omega arith) in
      retry_stop fuel _ _ none_at (try_avail k none_at ∙ z)

  -- With at least one unit of fuel the loop of the search ends without a panic, with the index of an
  -- available node if there is one, and else with no index and none counted.
  pub retry-ends :
      (fuel offset k : ℕ)
      → let res = try_find_support_node_offset_at_one_pass nodes targets k in
        (r : SupportIndexResult) × (retry debug_assertions
            (suc fuel)
            nodes
            targets
            (offset % res.avail)
            res
          ≡ some r)
        × (((j : ℕ) × (i : ℕ) × (r.index ≡ some j) × (get_elem? av i ≡ some j))
            ⊎ ((r.index ≡ none) × (r.avail ≡ 0) × (length av ≡ 0)))
  retry-ends fuel offset k = elim (dec_lt k (length av)) [
    | yes h ↦
        let (j, e) = get_elem?-lt av k h in
        (_, retry_found fuel offset k j e, inl (j, k, try_index k ∙ e, e))
    | no h ↦ elim (dec_lt 0 (length av)) [
      | yes p ↦
          let i = offset % length av in
          let (j, e) = get_elem?-lt av i (mod-lt offset p) in
          (_, retry_wrapped fuel offset k j (omega arith) p e, inl (j, i, try_index i ∙ e, e))
      | no p ↦
          let z : length av ≡ 0 = omega arith in
          let none_at = try_index k ∙ get_elem?-none av k (omega arith) in
          (_, retry_none fuel offset k z, inr (none_at, try_avail k none_at ∙ z, z))
    ]
  ]

  abbrev start_at : ℕ → ℕ
  start_at offset = offset % (length nodes - length targets)

  start_fits : (offset : ℕ) → length targets < length nodes → start_at offset ≤ length nodes
  start_fits offset h =
      let p : 0 < length nodes - length targets = omega arith in omega (arith, mod-lt offset p)

  uniform_found :
      (offset j : ℕ) (r : SupportIndexResult)
      → length targets < length nodes
      → after_pass 0 offset (start_at offset) ≡ some r
      → r.index ≡ some j
      → find_support_node_offset debug_assertions nodes targets offset ≡ some j
  unfolding find_support_node_offset
  uniform_found offset j r h e f =
      rw
        (
          gt→leb (length nodes) (length targets) h,
          asserted (start_at offset) (start_fits offset h),
          e,
          f,
        )
        refl

  -- With at least one node available, the search starts at an available node: the one with
  -- `offset % (nodes - targets)` available nodes before it or, if there are not so many, the one
  -- with `offset % available` before it.
  pub find_support_node_offset-uniform :
      (offset : ℕ)
      → length targets < length nodes
      → 0 < length av
      → let k = offset % (length nodes - length targets) in
        (j : ℕ) × (find_support_node_offset debug_assertions nodes targets offset ≡ some j)
        × (get_elem? av (if ltb k (length av) then k else offset % length av) ≡ some j)
  find_support_node_offset-uniform offset h p = elim (dec_lt (start_at offset) (length av)) [
    | yes q ↦
        let (j, e) = get_elem?-lt av (start_at offset) q in
        rw (lt→ltb (start_at offset) (length av) q) (
          j,
          uniform_found offset j _ h (retry_found 0 offset (start_at offset) j e)
              (try_index (start_at offset) ∙ e),
          e,
        )
    | no q ↦
        let (j, e) = get_elem?-lt av (offset % length av) (mod-lt offset p) in
        rw (le→ltb (start_at offset) (length av) (omega arith)) (
          j,
          uniform_found offset j _ h (retry_wrapped 0 offset (start_at offset) j (omega arith) p e)
              (try_index (offset % length av) ∙ e),
          e,
        )
  ]

  checked_rem-lt : (a b : ℕ) → 0 < b → (j : ℕ) × (checked_rem a b ≡ some j) × (j < b)
  unfolding checked_rem
  checked_rem-lt a zero h = absurd (omega arith)
  checked_rem-lt a (suc b) h = (_, refl, mod-lt a h)

  -- The search does not panic and ends; the start is a position in the list of nodes.
  pub find_support_node_offset-lt :
      (offset : ℕ)
      → 0 < length nodes
      → (j : ℕ) × (find_support_node_offset debug_assertions nodes targets offset ≡ some j)
        × (j < length nodes)
  unfolding find_support_node_offset
  find_support_node_offset-lt offset h = elim (dec_le (length nodes) (length targets)) [
    | yes q ↦ rw (le→leb (length nodes) (length targets) q) (checked_rem-lt offset (length nodes) h)
    | no q ↦
        let (r, e, ended) = retry-ends 0 offset (start_at offset) in
        elim ended [
          | inl (j, i, f, g) ↦ (
            j,
            uniform_found offset j r (omega arith) e f,
            omega (arith, available_indices-lt targets 0 nodes i j g),
          )
          | inr (f, z, y) ↦
              let g = asserted (start_at offset) (start_fits offset (omega arith)) in
              rw (gt→leb (length nodes) (length targets) (omega arith), g, e, f)
                (checked_rem-lt offset (length nodes) h)
        ]
  ]
