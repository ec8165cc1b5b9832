-- ===== src/Config/Replicas.antt =====
-- `Cluster::collect_vdisk_replicas` of bob-common/src/configs/cluster.rs: where each vdisk lies.
use bob.Prelude.{List, Option, String, [], find?, none, some, ℕ, ◌==◌, ◌∷◌}
use bob.Map.{insert, nat_eq}
use bob.Node.{NodeDisk}
use bob.Config.{Cluster, ClusterNode, VDiskConfig, Replica}

-- `Result<_, String>` with its two messages.
pub data Lookup (A : Type 0) : Type 0 where
  found : A → Lookup A
  unknown_node : Lookup A
  unknown_disk : String → ℕ → Lookup A

infixl 5 ◌>>=◌
abbrev pub ◌>>=◌ : {A B : Type 0} → Lookup A → (A → Lookup B) → Lookup B
found a >>= f = f a
unknown_node >>= f = unknown_node
unknown_disk d v >>= f = unknown_disk d v

-- `ok_or`, `ok_or_else`
abbrev pub or_fail : {A : Type 0} → Option A → Lookup A → Lookup A
or_fail none l = l
or_fail (some a) l = found a

unfoldable pub collect_replica : List ClusterNode → ℕ → Replica → Lookup NodeDisk
collect_replica nodes id r = do
  node ← or_fail (find? (λ n. n.name == r.node) nodes) unknown_node
  disk ← or_fail (find? (λ d. d.name == r.disk) node.disks) (unknown_disk r.disk id)
  found (record { node_name = node.name; disk_name = r.disk; disk_path = disk.path })

unfoldable pub collect_replicas : List ClusterNode → ℕ → List Replica → Lookup (List NodeDisk)
unfolding collect_replica
collect_replicas nodes id [] = found []
collect_replicas nodes id (r ∷ rs) = do
  d ← collect_replica nodes id r
  ds ← collect_replicas nodes id rs
  found (d ∷ ds)

unfoldable pub collect_vdisks :
    List ClusterNode
    → List VDiskConfig
    → List (ℕ × List NodeDisk)
    → Lookup (List (ℕ × List NodeDisk))
unfolding collect_replicas
collect_vdisks nodes [] vdisks = found vdisks
collect_vdisks nodes (v ∷ vs) vdisks = do
  ds ← collect_replicas nodes v.id v.replicas
  collect_vdisks nodes vs (insert vdisks v.id ds)

unfoldable pub collect_vdisk_replicas : Cluster → Lookup (List (ℕ × List NodeDisk))
unfolding collect_vdisks
collect_vdisk_replicas c = collect_vdisks c.nodes c.vdisks []
