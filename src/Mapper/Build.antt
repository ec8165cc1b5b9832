-- ===== src/Mapper/Build.antt =====
-- `Virtual::new` of bob-common/src/mapper.rs: the mapper of a cluster configuration. A conversion
-- or a search that panics is `none`.
pub mod Located
pub mod Routed
pub mod Total
use bob.Prelude.{
  List, Option, String, [], any, false, filter, find?, if◌then◌else◌, leb, length, none, some, ℕ,
  ◌+◌, ◌==◌, ◌^◌, ◌∷◌,
}
use bob.Map.{insert, nat_eq}
use bob.Node.{Node, NodeDisk, VDisk, DiskPath}
use bob.Config.{Cluster, ClusterNode}
use bob.Config.Replicas.{Lookup, found, unknown_node, unknown_disk, collect_vdisk_replicas}
use bob.Mapper.{Virtual}

-- The nodes, numbered from `i` on; none is connected yet.
unfoldable pub number : ℕ → List ClusterNode → List Node
number i [] = []
number i (c ∷ cs) =
    record { name = c.name; address = c.address; index = i; conn_available = false }
    ∷ number (i + 1) cs

-- An index that does not fit 16 bits panics.
unfoldable pub prepare_nodes : List ClusterNode → Option (List Node)
unfolding number
prepare_nodes cs = if leb (length cs) (2 ^ 16) then some (number 0 cs) else none

-- The nodes that have a replica, in the order of the cluster.
unfoldable pub vdisk_nodes : List Node → List NodeDisk → List Node
vdisk_nodes nodes replicas = filter (λ node. any (λ r. r.node_name == node.name) replicas) nodes

unfoldable pub prepare_vdisks :
    List Node → List (ℕ × List NodeDisk) → List (ℕ × VDisk) → List (ℕ × VDisk)
prepare_vdisks nodes [] vdisks = vdisks
prepare_vdisks nodes ((id, replicas) ∷ rest) vdisks =
    prepare_vdisks nodes rest (
      insert vdisks id
        (record { id = id; replicas = replicas; nodes = vdisk_nodes nodes replicas }))

unfoldable pub prepare_vdisks_map : Cluster → List Node → Option (List (ℕ × VDisk))
unfolding prepare_vdisks
prepare_vdisks_map c nodes = elim (collect_vdisk_replicas c) [
  | found replicas ↦ some (prepare_vdisks nodes replicas [])
  | unknown_node ↦ none
  | unknown_disk d v ↦ none
]

-- The name and the disks come from the node's own configuration.
unfoldable pub virtual_new : String → List DiskPath → Cluster → Option Virtual
virtual_new name disks c = elim (prepare_nodes c.nodes) [
  | none ↦ none
  | some nodes ↦ elim (prepare_vdisks_map c nodes) [
    | none ↦ none
    | some vdisks ↦ elim (find? (λ node. node.name == name) nodes) [
      | none ↦ none
      | some local ↦ some (record {
        local_node_name = name;
        local_node_address = local.address;
        disks = disks;
        vdisks = vdisks;
        nodes = nodes;
        support_nodes_offset = 0;
      })
    ]
  ]
]
