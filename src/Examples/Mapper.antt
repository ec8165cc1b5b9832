-- ===== src/Examples/Mapper.antt =====
-- A cluster of four nodes, of which one is a target of the key and one is not connected.
use bob.Prelude.{
  Bool, List, String, [], ap, arith, false, filter, get_elem?, if◌then◌else◌, inl, inr, length, ltb,
  none, refl, some, suc, sym, take, true, zero, ℕ, ◌%◌, ◌++◌, ◌-◌, ◌<◌, ◌^◌, ◌∷◌, ◌≡◌, ◌⊎◌,
}
use bob.Data.Bytes.{le_value}
use bob.Node.{Node, NodeDisk, VDisk}
use bob.Map.{get, nat_eq}
use bob.Mapper.{Virtual, get_vdisk_for_key, get_vdisk, vdisk_id_from_key, get_support_nodes}
use bob.Mapper.VdiskId.{vdisk_id_by_mod, vdisk_id_by_mod-eq-mod}
use bob.Mapper.Offset.{
  not_target, is_available, find_support_node_offset, retry, SupportIndexResult,
  try_find_support_node_offset_at_one_pass,
}
use bob.Mapper.Offset.Uniform.{
  available_indices, retry-ends, find_support_node_offset-uniform, find_support_node_offset-lt,
}
use bob.Mapper.Support.{support_nodes_from}
use bob.Mapper.Support.Selection.{is_backup, rotation, support_nodes_from-lem}
use bob.Mapper.Build.{virtual_new}
use bob.Mapper.Build.Located.{keys}
use bob.Mapper.Build.Routed.{IsRouted, IsRoutedVdisk, vdisk_for_key-le_value}
use bob.Mapper.Build.Total.{virtual_new-IsRouted}
use bob.Mapper.Aliens.{get_support_nodes-lem}
use bob.Config.Validated.{validate-IsValid}
use bob.Examples.Config.{three_nodes, port, validate-IsValid_input}

abbrev node : ℕ → String → Bool → Node
node i name up = record { name = name; address = name; index = i; conn_available = up }

abbrev four_nodes : List Node
four_nodes = node 0 "n0" true ∷ node 1 "n1" true ∷ node 2 "n2" false ∷ node 3 "n3" true ∷ []

abbrev the_target : List Node
the_target = node 1 "n1" true ∷ []

abbrev on_n1 : NodeDisk
on_n1 = record { node_name = "n1"; disk_name = "disk1"; disk_path = "/tmp/d1" }

abbrev the_vdisk : VDisk
the_vdisk = record { id = 0; replicas = on_n1 ∷ []; nodes = the_target }

abbrev mapper : Virtual
mapper = record {
  local_node_name = "n0";
  local_node_address = "n0";
  disks = [];
  vdisks = (0, the_vdisk) ∷ [];
  nodes = four_nodes;
  support_nodes_offset = 5;
}

vdisk_id_by_mod-eq-mod_example : vdisk_id_by_mod (1 ∷ 2 ∷ 3 ∷ []) 7 ≡ le_value (1 ∷ 2 ∷ 3 ∷ []) % 7
vdisk_id_by_mod-eq-mod_example =
    vdisk_id_by_mod-eq-mod (1 ∷ 2 ∷ 3 ∷ []) 7 (omega arith) (omega arith)
      (omega arith, (omega arith, (omega arith, tt)))

retry-ends_example :
    let res = try_find_support_node_offset_at_one_pass four_nodes the_target 2 in
    let av = available_indices the_target 0 four_nodes in
    (r : SupportIndexResult) × (retry true 5 four_nodes the_target (5 % res.avail) res ≡ some r)
    × (((j : ℕ) × (i : ℕ) × (r.index ≡ some j) × (get_elem? av i ≡ some j))
        ⊎ ((r.index ≡ none) × (r.avail ≡ 0) × (length av ≡ 0)))
retry-ends_example = retry-ends true four_nodes the_target 4 5 2

find_support_node_offset-uniform_example :
    let av = available_indices the_target 0 four_nodes in
    (j : ℕ) × (find_support_node_offset true four_nodes the_target 5 ≡ some j)
    × (get_elem? av (if ltb (5 % (4 - 1)) (length av) then 5 % (4 - 1) else 5 % length av) ≡ some j)
unfolding is_available not_target
find_support_node_offset-uniform_example =
    find_support_node_offset-uniform true four_nodes the_target 5 (omega arith) (omega arith)

find_support_node_offset-lt_example :
    (j : ℕ) × (find_support_node_offset true four_nodes the_target 5 ≡ some j) × (j < 4)
find_support_node_offset-lt_example =
    find_support_node_offset-lt true four_nodes the_target 5 (omega arith)

support_nodes_from-lem_example :
    let order = rotation four_nodes 3 in
    support_nodes_from four_nodes the_target 3 2
    ≡ some (take 2 (filter (is_available the_target) order ++ filter (is_backup the_target) order))
unfolding not_target
support_nodes_from-lem_example =
    support_nodes_from-lem four_nodes the_target 3 2 (refl, (refl, (refl, (refl, tt))))
      (omega arith) (refl, tt) (inr (inl refl), tt) (omega arith)

the_vdisk-IsRouted : IsRoutedVdisk four_nodes the_vdisk
unfolding not_target
the_vdisk-IsRouted = record {
  some_node = λ e. cc;
  distinct = (refl, tt);
  known = (inr (inl refl), tt);
  replicated = λ r m. elim m [
    | inl e ↦ (node 1 "n1" true, inl refl, ap (λ x. x.node_name) (sym e))
    | inr n ↦ absurd n
  ];
}

vdisk_at_zero :
    (id : ℕ)
    → id < 1
    → (d : VDisk) × (get mapper.vdisks id ≡ some d) × (d.id ≡ id) × IsRoutedVdisk four_nodes d
unfolding get
vdisk_at_zero zero h = (the_vdisk, refl, refl, the_vdisk-IsRouted)
vdisk_at_zero (suc id) h = absurd (omega arith)

mapper-IsRouted : IsRouted mapper
mapper-IsRouted = record {
  indexed = (refl, (refl, (refl, (refl, tt))));
  vdisk_at = vdisk_at_zero;
  some_vdisk = omega arith;
}

vdisk_for_key-le_value_example :
    (d : VDisk) × (get_vdisk_for_key mapper (1 ∷ 2 ∷ []) ≡ some d)
    × (d.id ≡ le_value (1 ∷ 2 ∷ []) % 1)
    × IsRoutedVdisk four_nodes d
vdisk_for_key-le_value_example =
    vdisk_for_key-le_value mapper (1 ∷ 2 ∷ []) mapper-IsRouted (omega arith)
      (omega arith, (omega arith, tt))

-- The offset is the last before it wraps around, and debug assertions are on.
abbrev last_offset : Virtual
last_offset = record mapper { support_nodes_offset = 2 ^ 64 - 1 }

last_offset-IsRouted : IsRouted last_offset
last_offset-IsRouted = record {
  indexed = (refl, (refl, (refl, (refl, tt))));
  vdisk_at = vdisk_at_zero;
  some_vdisk = omega arith;
}

found_last : get_vdisk_for_key last_offset (1 ∷ 2 ∷ []) ≡ some the_vdisk
unfolding get_vdisk_for_key get_vdisk get vdisk_id_from_key vdisk_id_by_mod
found_last = refl

get_support_nodes-lem_example :
    (start : ℕ) × (find_support_node_offset true four_nodes the_target (2 ^ 64 - 1) ≡ some start)
    × (start < 4)
    × (let order = rotation four_nodes start in
        get_support_nodes true last_offset (1 ∷ 2 ∷ []) 2
        ≡ some (
          take 2 (filter (is_available the_target) order ++ filter (is_backup the_target) order),
          record mapper { support_nodes_offset = 0 },
        ))
get_support_nodes-lem_example =
    get_support_nodes-lem true last_offset (1 ∷ 2 ∷ []) the_vdisk 2 last_offset-IsRouted found_last
      the_vdisk-IsRouted (omega arith) (λ t. omega arith) (omega arith)

virtual_new-IsRouted_example :
    (m : Virtual) × (virtual_new "n1" [] three_nodes ≡ some m)
    × (keys m.vdisks ≡ 1 ∷ 0 ∷ [])
    × IsRouted m
virtual_new-IsRouted_example =
    virtual_new-IsRouted three_nodes (validate-IsValid port three_nodes validate-IsValid_input).0
      "n1" [] (omega arith) (inr (inl refl))
