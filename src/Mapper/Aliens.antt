-- ===== src/Mapper/Aliens.antt =====
-- The support nodes of a key, for the mapper of a valid configuration (bob-common/src/mapper.rs).
use bob.Prelude.{
  All, Bool, List, Member, Option, [], any-Member, arith, dec_le, eqb, eqb_refl, false, filter,
  gt→leb, leb, length, length-take, le→leb, refl, some, take, true, ℕ, ◌%◌, ◌++◌, ◌+◌, ◌<◌, ◌^◌,
  ◌∙◌, ◌∷◌, ◌≡◌, ◌≤◌,
}
use bob.Data.{BobKey}
use bob.Node.{Node, VDisk}
use bob.Mapper.{
  Virtual, get_vdisk_for_key, get_target_nodes_for_key, are_distinct, are_known, next_offset,
  support_nodes_for, get_support_nodes,
}
use bob.Mapper.Offset.{debug_assert, is_available, find_support_node_offset}
use bob.Mapper.Offset.Uniform.{find_support_node_offset-lt}
use bob.Mapper.Support.Passes.{Distinct}
use bob.Mapper.Support.Selection.{is_backup, rotation, support_nodes_from-lem}
use bob.Mapper.Build.Routed.{IsRouted, IsRoutedVdisk}

are_distinct-Distinct : (ns : List Node) → Distinct ns → are_distinct ns ≡ true
unfolding are_distinct
are_distinct-Distinct [] h = refl
are_distinct-Distinct (n ∷ ns) h = ground (arith, h.0, are_distinct-Distinct ns h.1)

are_known-All : (nodes ns : List Node) → All (λ n. Member n nodes) ns → are_known nodes ns ≡ true
unfolding are_known
are_known-All nodes [] h = refl
are_known-All nodes (n ∷ ns) h =
    let found = (any-Member (λ f. eqb n.index f.index) nodes).1 (n, h.0, eqb_refl n.index) in
    rw found (are_known-All nodes ns h.1)

debug_assert-holds :
    {A : Type 0} (debug condition : Bool) (rest : Option A)
    → (debug ≡ true → condition ≡ true)
    → debug_assert debug condition rest ≡ rest
debug_assert-holds false condition rest h = refl
debug_assert-holds true condition rest h = rw (h refl) refl

-- Where the assertions hold, what is left is the selection for the targets.
get_support_nodes-asserted :
    (debug : Bool) (m : Virtual) (key : BobKey) (d : VDisk) (count : ℕ)
    → get_vdisk_for_key m key ≡ some d
    → IsRoutedVdisk m.nodes d
    → 0 < count
    → (debug ≡ true → count ≤ length m.nodes)
    → get_support_nodes debug m key count ≡ support_nodes_for debug m d.nodes count
unfolding get_support_nodes get_target_nodes_for_key
get_support_nodes-asserted debug m key d count e v p b =
    let nonzero : eqb count 0 ≡ false = ground arith in
    debug_assert-holds debug (leb count (length m.nodes)) _ (λ t. le→leb _ _ (b t))
    ∙ rw (nonzero, e)
        (debug_assert-holds debug (are_distinct d.nodes)
            (debug_assert debug (are_known m.nodes d.nodes)
              (support_nodes_for debug m d.nodes count))
            (λ t. are_distinct-Distinct d.nodes v.distinct)
          ∙ debug_assert-holds debug (are_known m.nodes d.nodes)
              (support_nodes_for debug m d.nodes count)
              (λ t. are_known-All m.nodes d.nodes v.known))

-- For a key of the vdisk `d`, in a mapper that routes every key, with the nodes of `d` distinct
-- nodes of the mapper and fewer than these, and `count` at least one and, where debug assertions
-- are on, at most the number of nodes: no index is out of bounds, the search for the start ends and
-- no assertion fails. The support nodes for `count` copies are the first `count` of the connected
-- nodes that are no targets, in the order from the start, and after them the disconnected ones in
-- the same order. Only the offset of the next search changes in the mapper, by one modulo 2 ^ 64.
pub get_support_nodes-lem :
    (debug : Bool) (m : Virtual) (key : BobKey) (d : VDisk) (count : ℕ)
    → IsRouted m
    → get_vdisk_for_key m key ≡ some d
    → IsRoutedVdisk m.nodes d
    → 0 < count
    → (debug ≡ true → count ≤ length m.nodes)
    → length d.nodes < length m.nodes
    → (start : ℕ) × (find_support_node_offset debug m.nodes d.nodes m.support_nodes_offset
        ≡ some start)
      × (start < length m.nodes)
      × (let order = rotation m.nodes start in
          get_support_nodes debug m key count
          ≡ some (
            take count (filter (is_available d.nodes) order ++ filter (is_backup d.nodes) order),
            record m { support_nodes_offset = (m.support_nodes_offset + 1) % 2 ^ 64 },
          ))
unfolding support_nodes_for next_offset
get_support_nodes-lem debug m key d count r e v p b q =
    let (start, f, l) =
      find_support_node_offset-lt debug m.nodes d.nodes m.support_nodes_offset (omega arith) in
    let selected =
      support_nodes_from-lem m.nodes d.nodes start count r.indexed p v.distinct v.known q in
    let candidates =
      filter (is_available d.nodes) (rotation m.nodes start)
      ++ filter (is_backup d.nodes) (rotation m.nodes start) in
    let short : leb (length (take count candidates)) count ≡ true =
      le→leb _ _ (omega (arith, length-take count candidates)) in
    (
      start,
      f,
      l,
      get_support_nodes-asserted debug m key d count e v p b
          ∙ rw (support_nodes_for, gt→leb (length m.nodes) (length d.nodes) q, f, selected)
              (debug_assert-holds debug _ _ (λ t. short)),
    )

-- For such a key the support nodes are found without a panic, at most `count` of them.
pub get_support_nodes-total :
    (debug : Bool) (m : Virtual) (key : BobKey) (d : VDisk) (count : ℕ)
    → IsRouted m
    → get_vdisk_for_key m key ≡ some d
    → IsRoutedVdisk m.nodes d
    → 0 < count
    → (debug ≡ true → count ≤ length m.nodes)
    → (sup : List Node) × (m' : Virtual) × (get_support_nodes debug m key count ≡ some (sup, m'))
      × (length sup ≤ count)
unfolding support_nodes_for
get_support_nodes-total debug m key d count r e v p b =
    elim (dec_le (length m.nodes) (length d.nodes)) [
      | yes q ↦ (
        [],
        m,
        get_support_nodes-asserted debug m key d count e v p b
            ∙ rw (support_nodes_for, le→leb (length m.nodes) (length d.nodes) q) refl,
        omega arith,
      )
      | no q ↦
          let (start, f, l, g) =
            get_support_nodes-lem debug m key d count r e v p b (omega arith) in
          let candidates =
            filter (is_available d.nodes) (rotation m.nodes start)
            ++ filter (is_backup d.nodes) (rotation m.nodes start) in
          (_, _, g, omega (arith, length-take count candidates))
    ]
