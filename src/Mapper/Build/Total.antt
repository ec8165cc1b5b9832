-- ===== src/Mapper/Build/Total.antt =====
-- `Virtual::new` on a valid configuration (bob-common/src/mapper.rs).
use bob.Prelude.{
  All, Bool-cases, List, Member, String, [], ap, arith, eq_iff, false, find?, inl, inr, length,
  le→leb, map, refl, some, subst, suc, sym, ℕ, ◌+◌, ◌<◌, ◌==◌, ◌^◌, ◌∙◌, ◌∷◌, ◌≡◌, ◌≢◌, ◌≤◌,
}
use bob.Map.{string_eq, nat_eq}
use bob.Node.{Node, NodeDisk, VDisk, DiskPath}
use bob.Config.{Cluster, ClusterNode, ids_of, names_of, VDiskConfig}
use bob.Config.Replicas.{found, collect_vdisk_replicas}
use bob.Config.Validated.{IsValid}
use bob.Config.Ids.{ids-Unique, ids_below}
use bob.Config.Checks.{Unique}
use bob.Mapper.{Virtual}
use bob.Mapper.Build.{number, prepare_nodes, prepare_vdisks_map, virtual_new}
use bob.Mapper.Build.Located.{keys, get-Member, AreLocated, vdisks_found, entry, prepare_vdisks-map}
use bob.Mapper.Build.Routed.{IsRouted, IsRoutedVdisk, number-Indexed, routed_vdisk}

find_named :
    (i : ℕ) (cs : List ClusterNode) (name : String)
    → Member name (map (λ c. c.name) cs)
    → (n : Node) × (find? (λ node. node.name == name) (number i cs) ≡ some n)
unfolding number
find_named i [] name h = absurd h
find_named i (c ∷ cs) name h = elim (Bool-cases (c.name == name)) [
  | inl e ↦
      (record { name = c.name; address = c.address; index = i; conn_available = false }, rw e refl)
  | inr e ↦ elim h [
    | inl f ↦ absurd (ground (arith, eq_iff c.name name))
    | inr k ↦ let (n, g) = find_named (i + 1) cs name k in (n, rw e g)
  ]
]

keys-entry :
    (nodes : List Node) (l : List (ℕ × List NodeDisk)) → keys (map (entry nodes) l) ≡ keys l
keys-entry nodes [] = refl
keys-entry nodes (p ∷ l) = ap (◌∷◌ p.0) (keys-entry nodes l)

entries_routed :
    (cs : List ClusterNode) (l : List (ℕ × List NodeDisk))
    → All (λ p. AreLocated cs p.1) l
    → All (λ p. (p.1.id ≡ p.0) × IsRoutedVdisk (number 0 cs) p.1) (map (entry (number 0 cs)) l)
entries_routed cs [] h = tt
entries_routed cs (p ∷ l) h = ((refl, routed_vdisk cs p.1 p.0 h.0), entries_routed cs l h.1)

length-keys : {V : Type 0} (m : List (ℕ × V)) → length (keys m) ≡ length m
length-keys [] = refl
length-keys (p ∷ m) = ap suc (length-keys m)

length_pos : (c : Cluster) → c.vdisks ≢ [] → 0 < length (ids_of c)
length_pos c h = go c.vdisks h
  where
    go : (vs : List VDiskConfig) → vs ≢ [] → 0 < length (map (λ v. v.id) vs)
    go [] h = absurd (h refl)
    go (v ∷ vs) h = omega arith

module _ (c : Cluster) (valid : IsValid c) where
  -- The map of vdisks of a valid configuration.
  vdisks_map :
      (l : List (ℕ × VDisk)) × (prepare_vdisks_map c (number 0 c.nodes) ≡ some l)
      × (keys l ≡ ids_of c)
      × All (λ p. (p.1.id ≡ p.0) × IsRoutedVdisk (number 0 c.nodes) p.1) l
  unfolding prepare_vdisks_map
  vdisks_map =
      let unique = ids-Unique (ids_of c) valid.ids in
      let (located, e, ks, good) =
        vdisks_found c.nodes c.vdisks [] valid.vdisks unique (λ a m k. k) in
      let nodes = number 0 c.nodes in
      let collected : collect_vdisk_replicas c ≡ found located =
        unfold collect_vdisk_replicas in e in
      (
        map (entry nodes) located,
        rw
            (
              collected,
              prepare_vdisks_map,
              prepare_vdisks-map nodes located [] (subst Unique (sym ks) unique) (λ a m k. k),
            )
            refl,
        keys-entry nodes located ∙ ks,
        entries_routed c.nodes located good,
      )

  -- From a valid configuration of at most 2 ^ 16 nodes, one of which is the local node, the mapper
  -- is built without a panic; it has the configuration's vdisks, and routes every key: each id
  -- below their number has a vdisk, whose nodes are nodes of the cluster, one at least, no two with
  -- the same index.
  pub virtual_new-IsRouted :
      (name : String) (disks : List DiskPath)
      → length c.nodes ≤ 2 ^ 16
      → Member name (names_of c)
      → (m : Virtual) × (virtual_new name disks c ≡ some m)
        × (keys m.vdisks ≡ ids_of c)
        × IsRouted m
  unfolding virtual_new
  virtual_new-IsRouted name disks fits member =
      let (l, e, ks, good) = vdisks_map in
      let prepared : prepare_nodes c.nodes ≡ some (number 0 c.nodes) =
        unfold prepare_nodes in rw (le→leb (length c.nodes) (2 ^ 16) fits) refl in
      let (local, f) = find_named 0 c.nodes name member in
      (
        record {
          local_node_name = name;
          local_node_address = local.address;
          disks = disks;
          vdisks = l;
          nodes = number 0 c.nodes;
          support_nodes_offset = 0;
        },
        rw (prepared, virtual_new, e, f) refl,
        ks,
        record {
          indexed = number-Indexed 0 c.nodes;
          vdisk_at = λ id lt.
              let (d, at_id, (same, routed)) =
                get-Member (λ i v. (v.id ≡ i) × IsRoutedVdisk (number 0 c.nodes) v) l id
                  (subst (Member id) (sym ks) (
                    ids_below (ids_of c) valid.ids id
                      (omega (arith, lt, length-keys l, ap length ks))))
                  good in
              (d, at_id, same, routed);
          some_vdisk = omega (arith, length-keys l, ap length ks, length_pos c valid.has_vdisks);
        },
      )
