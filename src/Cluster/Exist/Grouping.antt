-- ===== src/Cluster/Exist/Grouping.antt =====
-- The keys that each node is asked for by `exist` (`group_by_nodes` of bob/src/cluster/quorum.rs).
use bob.Prelude.{
  Bool, Bool-cases, List, Member, Option-cases, String, [], any, ap, arith, eqb, false, find?,
  find?-some, get_elem?, inl, inr, is_some, length, none, not, refl, some, suc, sym, true, zero, ℕ,
  ◌&&◌, ◌+◌, ◌<◌, ◌==◌, ◌||◌, ◌∙◌, ◌∷◌, ◌≡◌,
}
use bob.Data.{BobKey}
use bob.Node.{Node}
use bob.Map.{get, string_eq}
use bob.Cluster.IndexMap.Laws.{contains}
use bob.Cluster.Exist.{Groups, choose_primary, place_node, place_nodes, group_from, group_by_nodes}
use bob.Cluster.Exist.Maps.{
  contains-append, at, UniqueNames-insert, IsGrouped, place_remote-IsGrouped, place_remote-lem,
  on_local-place_remote, insert_empty, not_some, any_not,
}

module _ (local_node : String) where
  -- Whether a key with these targets is looked up on the node.
  abbrev pub asked : List Node → String → Bool
  asked targets n = any (λ t. not (t.name == local_node) && (t.name == n)) targets

  abbrev pub is_here : List Node → Bool
  is_here targets = any (λ t. t.name == local_node) targets

  -- The places of each node, and of this one, with those of a further key.
  record Adds (g g' : Groups) (index : ℕ) (targets : List Node) : Type 0 where
    pub elsewhere :
        (n : String) (i : ℕ) → at g' n i ≡ (at g n i || (eqb index i && asked targets n))
    pub here :
        (i : ℕ)
        → contains g'.on_local i ≡ (contains g.on_local i || (eqb index i && is_here targets))
    pub grouped : IsGrouped g → IsGrouped g'

  place_node-lem :
      (index : ℕ) (t : Node) (g : Groups) → Adds g (place_node local_node index t g) index (t ∷ [])
  unfolding place_node
  place_node-lem index t g = elim (Bool-cases (t.name == local_node)) [
    | inl e ↦ rw e (record {
      elsewhere = λ n i. ground (arith, e);
      here = λ i. ground (arith, e, contains-append g.on_local index i);
      grouped = λ u. record { primary = u.primary; secondary = u.secondary };
    })
    | inr e ↦ rw e (record {
      elsewhere = λ n i. ground (arith, e, place_remote-lem index t.name g n i);
      here =
          λ i. rw (on_local-place_remote index t.name (get g.primary t.name) g) (ground (arith, e));
      grouped = place_remote-IsGrouped index t.name (get g.primary t.name) g;
    })
  ]

  place_nodes-lem :
      (index : ℕ) (targets : List Node) (g : Groups)
      → Adds g (place_nodes local_node index targets g) index targets
  unfolding place_nodes
  place_nodes-lem index [] g = record {
    elsewhere = λ n i. ground arith;
    here = λ i. ground arith;
    grouped = λ u. u;
  }
  place_nodes-lem index (t ∷ targets) g =
      let g1 : Groups = place_node local_node index t g in
      let a : Adds g g1 index (t ∷ []) = place_node-lem index t g in
      let b : Adds g1 (place_nodes local_node index targets g1) index targets =
        place_nodes-lem index targets g1 in
      record {
        elsewhere = λ n i. ground (arith, a.elsewhere n i, b.elsewhere n i);
        here = λ i. ground (arith, a.here i, b.here i);
        grouped = λ u. b.grouped (a.grouped u);
      }

  choose_primary-lem :
      (targets : List Node) (g : Groups) → Adds g (choose_primary local_node targets g) 0 []
  unfolding choose_primary
  choose_primary-lem targets g =
      elim (Bool-cases
        (any (λ n. (n.name == local_node) || is_some (get g.primary n.name)) targets)) [
          | inl e ↦ rw e (record {
            elsewhere = λ n i. ground arith;
            here = λ i. ground arith;
            grouped = λ u. u;
          })
          | inr e ↦
              elim (Option-cases (find? (λ n. not (is_some (get g.secondary n.name))) targets)) [
                | inl f ↦
                    rw (e, f)
                      (record {
                        elsewhere = λ n i. ground arith;
                        here = λ i. ground arith;
                        grouped = λ u. u;
                      })
                | inr (t, f) ↦
                    let m : Member t targets = (find?-some _ targets t f).0 in
                    let k = any_not _ targets t m e in
                    let free : get g.primary t.name ≡ none = not_some _ (ground (arith, k)) in
                    rw (e, f)
                      (record {
                        elsewhere = λ n i. ground (arith, insert_empty g.primary t.name n i free);
                        here = λ i. ground arith;
                        grouped = λ u. record {
                          primary = UniqueNames-insert g.primary t.name [] u.primary;
                          secondary = u.secondary;
                        };
                      })
              ]
        ]

  module _ (targets : BobKey → List Node) where
    -- Whether a place, counted from `index`, is that of a key that meets the test.
    abbrev at_key : (BobKey → Bool) → ℕ → List BobKey → ℕ → Bool
    at_key p index [] i = false
    at_key p index (key ∷ keys) i = (eqb index i && p key) || at_key p (index + 1) keys i

    record AddsAll (g g' : Groups) (index : ℕ) (keys : List BobKey) : Type 0 where
      pub elsewhere :
          (n : String) (i : ℕ)
          → at g' n i ≡ (at g n i || at_key (λ key. asked (targets key) n) index keys i)
      pub here :
          (i : ℕ)
          → contains g'.on_local i
            ≡ (contains g.on_local i || at_key (λ key. is_here (targets key)) index keys i)
      pub grouped : IsGrouped g → IsGrouped g'

    group_from-lem :
        (index : ℕ) (keys : List BobKey) (g : Groups)
        → AddsAll g (group_from local_node targets index keys g) index keys
    unfolding group_from
    group_from-lem index [] g = record {
      elsewhere = λ n i. ground arith;
      here = λ i. ground arith;
      grouped = λ u. u;
    }
    group_from-lem index (key ∷ keys) g =
        let g1 : Groups = choose_primary local_node (targets key) g in
        let g2 : Groups = place_nodes local_node index (targets key) g1 in
        let a : Adds g g1 0 [] = choose_primary-lem (targets key) g in
        let b : Adds g1 g2 index (targets key) = place_nodes-lem index (targets key) g1 in
        let c : AddsAll g2 (group_from local_node targets (index + 1) keys g2) (index + 1) keys =
          group_from-lem (index + 1) keys g2 in
        record {
          elsewhere = λ n i. ground (arith, a.elsewhere n i, b.elsewhere n i, c.elsewhere n i);
          here = λ i. ground (arith, a.here i, b.here i, c.here i);
          grouped = λ u. c.grouped (b.grouped (a.grouped u));
        }

    at_key-before :
        (p : BobKey → Bool) (index : ℕ) (keys : List BobKey) (i : ℕ)
        → i < index
        → at_key p index keys i ≡ false
    at_key-before p index [] i h = refl
    at_key-before p index (key ∷ keys) i h =
        ground (arith, at_key-before p (index + 1) keys i (omega arith))

    at_key-lem :
        (p : BobKey → Bool) (index : ℕ) (keys : List BobKey) (j i : ℕ) (key : BobKey)
        → get_elem? keys j ≡ some key
        → i ≡ index + j
        → at_key p index keys i ≡ p key
    at_key-lem p index [] j i key e h = absurd (cc)
    at_key-lem p index (k ∷ keys) zero i key e h =
        let f : k ≡ key = cc e in
        ground (arith, at_key-before p (index + 1) keys i (omega (arith, h)), ap p f)
    at_key-lem p index (k ∷ keys) (suc j) i key e h =
        ground (arith, at_key-lem p (index + 1) keys j i key e (omega (arith, h)))

    at_key-Within :
        (p : BobKey → Bool) (index : ℕ) (keys : List BobKey) (i : ℕ)
        → at_key p index keys i ≡ true
        → i < index + length keys
    at_key-Within p index [] i h = absurd (cc)
    at_key-Within p index (k ∷ keys) i h = ground (arith, at_key-Within p (index + 1) keys i)

    -- The places of the groups: of each node, those of the keys that it is a target of.
    pub record Grouped (keys : List BobKey) : Type 0 where
      pub elsewhere :
          (n : String) (i : ℕ) (key : BobKey)
          → get_elem? keys i ≡ some key
          → at (group_by_nodes local_node targets keys) n i ≡ asked (targets key) n
      pub elsewhere_within :
          (n : String) (i : ℕ)
          → at (group_by_nodes local_node targets keys) n i ≡ true
          → i < length keys
      pub here :
          (i : ℕ) (key : BobKey)
          → get_elem? keys i ≡ some key
          → contains (group_by_nodes local_node targets keys).on_local i ≡ is_here (targets key)
      pub here_within :
          (i : ℕ)
          → contains (group_by_nodes local_node targets keys).on_local i ≡ true
          → i < length keys
      pub grouped : IsGrouped (group_by_nodes local_node targets keys)

    pub group_by_nodes-Grouped : (keys : List BobKey) → Grouped keys
    unfolding group_by_nodes
    group_by_nodes-Grouped keys =
        let start : Groups = record { on_local = []; primary = []; secondary = [] } in
        let a : AddsAll start (group_from local_node targets 0 keys start) 0 keys =
          group_from-lem 0 keys start in
        record {
          elsewhere = λ n i key e.
              unfold get in
              a.elsewhere n i
              ∙ at_key-lem (λ k. asked (targets k) n) 0 keys i i key e (omega arith);
          elsewhere_within = λ n i h.
              unfold get in
              omega (
                arith,
                at_key-Within (λ k. asked (targets k) n) 0 keys i (sym (a.elsewhere n i) ∙ h),
              );
          here = λ i key e.
              a.here i ∙ at_key-lem (λ k. is_here (targets k)) 0 keys i i key e (omega arith);
          here_within = λ i h.
              omega (arith, at_key-Within (λ k. is_here (targets k)) 0 keys i (sym (a.here i) ∙ h));
          grouped = a.grouped (record { primary = tt; secondary = tt });
        }
