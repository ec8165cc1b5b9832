-- ===== src/Config/Validated.antt =====
-- What a configuration that passes all the checks has (bob-common/src/configs/cluster.rs).
use mathlib.Core.List.{Perm}
use bob.Prelude.{
  All, List, Option, Option-cases, String, [], all, arith, false, find?, inl, inr, length, map, not,
  some, ℕ, ◌==◌, ◌∷◌, ◌≡◌, ◌≢◌,
}
use bob.Map.{string_eq}
use bob.Config.Checks.{
  valid, Unique, >>-valid, because-valid, aggregate, aggregate-valid, validate_no_duplicates,
  validate_no_duplicates-Unique, because,
}
use bob.Config.Checks.{
  invalid_vdisks, invalid_vdisk, duplicate_node, duplicate_address, duplicate_rack,
  duplicate_in_racks,
}
use bob.Config.Sorting.{sort}
use bob.Config.Ids.{upto, check_ids-perm}
use bob.Config.{
  validate_replica_list, validate_contents, validate_lists, Rack, Cluster, ClusterNode, VDiskConfig,
  Replica, ids_of, names_of, rack_nodes_of, validate, validate_vdisk, validate_replica, check_ids,
  check_replica, check_replicas, check_vdisks, check_rack_nodes, replica_eq,
}

-- A replica's node is in the cluster, and its disk on that node.
abbrev pub IsPlaced : List ClusterNode → Replica → Type 0
IsPlaced nodes r =
    (n : ClusterNode) × (find? (λ x. x.name == r.node) nodes ≡ some n)
    × (all (λ x. not (x.name == r.disk)) n.disks ≡ false)

pub record IsValidVdisk (nodes : List ClusterNode) (v : VDiskConfig) : Type 0 where
  pub has_replicas : v.replicas ≢ []
  pub unique_replicas : Unique v.replicas
  pub placed : All (IsPlaced nodes) v.replicas

pub record IsValid (c : Cluster) : Type 0 where
  pub has_nodes : c.nodes ≢ []
  pub has_vdisks : c.vdisks ≢ []
  pub ids : check_ids 0 (sort (ids_of c)) ≡ valid
  pub unique_names : Unique (names_of c)
  pub vdisks : All (IsValidVdisk c.nodes) c.vdisks

check_replica-IsPlaced :
    (nodes : List ClusterNode) (id : ℕ) (r : Replica)
    → check_replica nodes id r ≡ valid
    → IsPlaced nodes r
unfolding check_replica
check_replica-IsPlaced nodes id r h = elim (Option-cases (find? (λ x. x.name == r.node) nodes)) [
  | inl e ↦ absurd (ground arith)
  | inr (n, e) ↦ (n, e, ground arith)
]

check_replicas-IsPlaced :
    (nodes : List ClusterNode) (id : ℕ) (rs : List Replica)
    → check_replicas nodes id rs ≡ valid
    → All (IsPlaced nodes) rs
unfolding check_replicas
check_replicas-IsPlaced nodes id [] h = tt
check_replicas-IsPlaced nodes id (r ∷ rs) h =
    let s = >>-valid (check_replica nodes id r) (check_replicas nodes id rs) h in
    (check_replica-IsPlaced nodes id r s.0, check_replicas-IsPlaced nodes id rs s.1)

replica_list_lem :
    (id : ℕ) (rs : List Replica) → validate_replica_list id rs ≡ valid → (rs ≢ []) × Unique rs
unfolding validate_replica_list
replica_list_lem id [] h = (λ e. cc, tt)
replica_list_lem id (r ∷ rs) h = (
  λ e. cc,
  validate_no_duplicates-Unique _ (r ∷ rs)
      (>>-valid (because (invalid_vdisk id) (aggregate (map validate_replica (r ∷ rs)))) _ h).1,
)

validate_vdisk-replicas :
    (v : VDiskConfig) → validate_vdisk v ≡ valid → (v.replicas ≢ []) × Unique v.replicas
unfolding validate_vdisk
validate_vdisk-replicas v h = replica_list_lem v.id v.replicas h

vdisks_valid :
    (nodes : List ClusterNode) (vs : List VDiskConfig)
    → All (λ v. validate_vdisk v ≡ valid) vs
    → check_vdisks nodes vs ≡ valid
    → All (IsValidVdisk nodes) vs
unfolding check_vdisks
vdisks_valid nodes [] h k = tt
vdisks_valid nodes (v ∷ vs) h k =
    let s = >>-valid (check_replicas nodes v.id v.replicas) (check_vdisks nodes vs) k in
    let r = validate_vdisk-replicas v h.0 in
    (
      record {
        has_replicas = r.0;
        unique_replicas = r.1;
        placed = check_replicas-IsPlaced nodes v.id v.replicas s.0;
      },
      vdisks_valid nodes vs h.1 s.1,
    )

module _ (parse_port : String → Option (Option ℕ)) where
  contents_valid :
      (nodes : List ClusterNode) (vdisks : List VDiskConfig) (racks : List Rack)
      → validate_contents parse_port nodes vdisks racks ≡ valid
      → (check_ids 0 (sort (map (λ v. v.id) vdisks)) ≡ valid)
        × Unique (map (λ n. n.name) nodes)
        × All (IsValidVdisk nodes) vdisks
  unfolding validate_contents
  contents_valid nodes vdisks racks h =
      let s1 = >>-valid _ (check_vdisks nodes vdisks) h in
      let s2 = >>-valid _ (check_rack_nodes (map (λ n. n.name) nodes) (rack_nodes_of racks)) s1.0 in
      let s3 = >>-valid _ (validate_no_duplicates duplicate_in_racks (rack_nodes_of racks)) s2.0 in
      let s4 = >>-valid _ (validate_no_duplicates duplicate_rack (map (λ r. r.name) racks)) s3.0 in
      let s5 =
        >>-valid _ (validate_no_duplicates duplicate_address (map (λ n. n.address) nodes)) s4.0 in
      let s6 = >>-valid _ (validate_no_duplicates duplicate_node (map (λ n. n.name) nodes)) s5.0 in
      let s7 = >>-valid _ (check_ids 0 (sort (map (λ v. v.id) vdisks))) s6.0 in
      let s8 = >>-valid _ (because invalid_vdisks (aggregate (map validate_vdisk vdisks))) s7.0 in
      (
        s7.1,
        validate_no_duplicates-Unique duplicate_node (map (λ n. n.name) nodes) s6.1,
        vdisks_valid nodes vdisks
            (aggregate-valid validate_vdisk vdisks (because-valid invalid_vdisks _ s8.1)) s1.1,
      )

  lists_valid :
      (nodes : List ClusterNode) (vdisks : List VDiskConfig) (racks : List Rack)
      → validate_lists parse_port nodes vdisks racks ≡ valid
      → (nodes ≢ []) × (vdisks ≢ []) × (validate_contents parse_port nodes vdisks racks ≡ valid)
  unfolding validate_lists
  lists_valid [] vdisks racks h = absurd (ground arith)
  lists_valid (n ∷ nodes) [] racks h = absurd (ground arith)
  lists_valid (n ∷ nodes) (v ∷ vdisks) racks h = (λ e. cc, λ e. cc, h)

  -- A configuration that passes `validate` has nodes with different names, vdisks whose ids are 0,
  -- 1, 2, ... in some order, and on each vdisk at least one replica, all different, each on a disk
  -- of a node of the cluster.
  pub validate-IsValid :
      (c : Cluster)
      → validate parse_port c ≡ valid
      → IsValid c × Perm (ids_of c) (upto 0 (length (ids_of c)))
  unfolding validate
  validate-IsValid c h =
      let l = lists_valid c.nodes c.vdisks c.racks h in
      let k = contents_valid c.nodes c.vdisks c.racks l.2 in
      (
        record { has_nodes = l.0; has_vdisks = l.1; ids = k.0; unique_names = k.1; vdisks = k.2 },
        check_ids-perm (ids_of c) k.0,
      )
