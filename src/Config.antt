-- ===== src/Config.antt =====
-- bob-common/src/configs/cluster.rs and validation.rs: the cluster's configuration and its checks.
-- A check that fails gives the reasons, one for each message (`join("\n")` is the concatenation of
-- the lists). The URI parser is the `http` crate's: a parameter, `none` where it fails and
-- otherwise the port, if there is one. Sorting is the standard library's.
pub mod Checks
pub mod Sorting
pub mod Ids
pub mod Replicas
pub mod Validated
use bob.Prelude.{
  Bool, List, Option, String, [], all, arith, eq_iff, find?, if◌then◌else◌, ltb, map, none, not,
  some, true, ℕ, ◌&&◌, ◌++◌, ◌+◌, ◌==◌, ◌||◌, ◌↔◌, ◌∷◌, ◌≡◌,
}
use bob.Map.{Eq, string_eq, get, insert}
use bob.Node.{DiskPath, NodeDisk}
use Checks.{
  Check, valid, invalid, Reason, ◌>>◌, aggregate, validate_no_duplicates, because, contains,
}
use Checks.{
  disk_fields, rack_name, rack_duplicate, node_name, node_no_port, node_bad_uri,
  node_duplicate_disk, replica_fields,
}
use Checks.{
  vdisk_no_replicas, vdisk_duplicate, no_nodes, no_vdisks, duplicate_id, gap_before, duplicate_node,
  duplicate_address,
}
use Checks.{
  duplicate_rack, duplicate_in_racks, unknown_in_racks, no_disk_for, no_node_for, invalid_racks,
  invalid_nodes, invalid_vdisks,
}
use Checks.{invalid_vdisk}
use Sorting.{sort}

pub record Rack : Type 0 where
  pub name : String
  pub nodes : List String

pub record ClusterNode : Type 0 where
  pub name : String
  pub address : String
  pub disks : List DiskPath

pub record Replica : Type 0 where
  pub node : String
  pub disk : String

pub record VDiskConfig : Type 0 where
  pub id : ℕ
  pub replicas : List Replica

-- `distribution_func` has the one value `Mod`.
pub record Cluster : Type 0 where
  pub nodes : List ClusterNode
  pub vdisks : List VDiskConfig
  pub racks : List Rack

abbrev pub replica_beq : Replica → Replica → Bool
replica_beq a b = (a.node == b.node) && (a.disk == b.disk)

pub replica_iff : (a b : Replica) → (replica_beq a b ≡ true) ↔ (a ≡ b)
replica_iff a b = (
  λ h. ground (arith, eq_iff a.node b.node, eq_iff a.disk b.disk),
  λ h. ground (arith, eq_iff a.node b.node, eq_iff a.disk b.disk),
)

instance abbrev pub replica_eq : Eq Replica
replica_eq = record { beq = replica_beq; beq_iff = replica_iff }

abbrev pub is_empty : String → Bool
is_empty s = s == ""

unfoldable pub validate_disk_path : DiskPath → Check
validate_disk_path d =
    if is_empty d.name || is_empty d.path || (d.name == "~") || (d.path == "~")
    then invalid (disk_fields ∷ [])
    else valid

unfoldable pub validate_rack : Rack → Check
validate_rack r =
    if is_empty r.name || (r.name == "~")
    then invalid (rack_name ∷ [])
    else validate_no_duplicates rack_duplicate r.nodes

unfoldable pub validate_node : (String → Option (Option ℕ)) → ClusterNode → Check
unfolding validate_disk_path
validate_node parse_port n =
    if is_empty n.name || (n.name == "~")
    then invalid (node_name ∷ [])
    else elim (parse_port n.address) [
      | none ↦ invalid (node_bad_uri n.address ∷ [])
      | some none ↦ invalid (node_no_port n.address ∷ [])
      | some (some port) ↦
          aggregate (map validate_disk_path n.disks)
          >> validate_no_duplicates node_duplicate_disk (map (λ d. d.name) n.disks)
    ]

unfoldable pub validate_replica : Replica → Check
validate_replica r =
    if is_empty r.node || is_empty r.disk then invalid (replica_fields ∷ []) else valid

unfoldable pub validate_replica_list : ℕ → List Replica → Check
unfolding validate_replica
validate_replica_list id [] = invalid (vdisk_no_replicas id ∷ [])
validate_replica_list id (r ∷ rs) =
    because (invalid_vdisk id) (aggregate (map validate_replica (r ∷ rs)))
    >> validate_no_duplicates (λ d. vdisk_duplicate id d.node d.disk) (r ∷ rs)

unfoldable pub validate_vdisk : VDiskConfig → Check
unfolding validate_replica_list
validate_vdisk v = validate_replica_list v.id v.replicas

-- The loop over the sorted ids, from `index` on.
unfoldable pub check_ids : ℕ → List ℕ → Check
check_ids index [] = valid
check_ids index (id ∷ ids) =
    let rest = check_ids (index + 1) ids in
    if ltb id index
    then invalid (duplicate_id id ∷ [])
    else if ltb index id
    then invalid (gap_before id ∷ [])
    else rest

-- The loop over the node names of all racks.
unfoldable pub check_rack_nodes : List String → List String → Check
check_rack_nodes names [] = valid
check_rack_nodes names (n ∷ ns) =
    let rest = check_rack_nodes names ns in
    if contains names n then rest else invalid (unknown_in_racks n ∷ [])

unfoldable pub check_replica : List ClusterNode → ℕ → Replica → Check
check_replica nodes id r = elim (find? (λ x. x.name == r.node) nodes) [
  | none ↦ invalid (no_node_for r.node id ∷ [])
  | some node ↦
      if all (λ x. not (x.name == r.disk)) node.disks
      then invalid (no_disk_for r.node r.disk id ∷ [])
      else valid
]

unfoldable pub check_replicas : List ClusterNode → ℕ → List Replica → Check
unfolding check_replica
check_replicas nodes id [] = valid
check_replicas nodes id (r ∷ rs) = check_replica nodes id r >> check_replicas nodes id rs

unfoldable pub check_vdisks : List ClusterNode → List VDiskConfig → Check
unfolding check_replicas
check_vdisks nodes [] = valid
check_vdisks nodes (v ∷ vs) = check_replicas nodes v.id v.replicas >> check_vdisks nodes vs

abbrev pub ids_of : Cluster → List ℕ
ids_of c = map (λ v. v.id) c.vdisks

abbrev pub names_of : Cluster → List String
names_of c = map (λ n. n.name) c.nodes

abbrev pub rack_nodes_of : List Rack → List String
rack_nodes_of [] = []
rack_nodes_of (r ∷ rs) = r.nodes ++ rack_nodes_of rs

-- The checks after the two on emptiness.
unfoldable pub validate_contents :
    (String → Option (Option ℕ)) → List ClusterNode → List VDiskConfig → List Rack → Check
validate_contents parse_port nodes vdisks racks =
    because invalid_racks (aggregate (map validate_rack racks))
    >> because invalid_nodes (aggregate (map (validate_node parse_port) nodes))
    >> because invalid_vdisks (aggregate (map validate_vdisk vdisks))
    >> check_ids 0 (sort (map (λ v. v.id) vdisks))
    >> validate_no_duplicates duplicate_node (map (λ n. n.name) nodes)
    >> validate_no_duplicates duplicate_address (map (λ n. n.address) nodes)
    >> validate_no_duplicates duplicate_rack (map (λ r. r.name) racks)
    >> validate_no_duplicates duplicate_in_racks (rack_nodes_of racks)
    >> check_rack_nodes (map (λ n. n.name) nodes) (rack_nodes_of racks)
    >> check_vdisks nodes vdisks

unfoldable pub validate_lists :
    (String → Option (Option ℕ)) → List ClusterNode → List VDiskConfig → List Rack → Check
unfolding validate_contents
validate_lists parse_port [] vdisks racks = invalid (no_nodes ∷ [])
validate_lists parse_port (n ∷ nodes) [] racks = invalid (no_vdisks ∷ [])
validate_lists parse_port (n ∷ nodes) (v ∷ vdisks) racks =
    validate_contents parse_port (n ∷ nodes) (v ∷ vdisks) racks

unfoldable pub validate : (String → Option (Option ℕ)) → Cluster → Check
unfolding validate_lists
validate parse_port c = validate_lists parse_port c.nodes c.vdisks c.racks
