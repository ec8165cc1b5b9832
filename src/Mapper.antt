-- ===== src/Mapper.antt =====
-- bob-common/src/mapper.rs: `Virtual`, the distribution of keys over virtual disks and of aliens
-- over support nodes. The vdisks are a map by id; `fetch_add` on the shared offset is the field
-- `support_nodes_offset` and its new value. A `get(..).expect(..)` that fails is `none`.
pub mod Aliens
pub mod Build
pub mod Offset
pub mod Support
pub mod VdiskId
use bob.Prelude.{
  Bool, List, Option, String, [], all, any, eqb, filter, if◌then◌else◌, leb, length, map, none,
  some, true, ℕ, ◌%◌, ◌&&◌, ◌++◌, ◌+◌, ◌==◌, ◌^◌, ◌∷◌,
}
use bob.Map.{get, insert, nat_eq, string_eq}
use mathlib.Core.Option
use bob.Data.{BobKey}
use bob.Node.{Node, NodeDisk, VDisk, DiskPath, disk_path_from}
use Offset.{not_target, debug_assert, find_support_node_offset}
use Support.{support_nodes_from}
use VdiskId.{vdisk_id_by_mod}

pub record Virtual : Type 0 where
  pub local_node_name : String
  pub local_node_address : String
  pub disks : List DiskPath
  pub vdisks : List (ℕ × VDisk)
  pub nodes : List Node
  pub support_nodes_offset : ℕ

-- `DistributionFunc` has the one value `Mod`.
unfoldable pub vdisk_id_from_key : Virtual → BobKey → ℕ
vdisk_id_from_key m key = vdisk_id_by_mod key (length m.vdisks)

unfoldable pub get_vdisk : Virtual → ℕ → Option VDisk
get_vdisk m id = get m.vdisks id

unfoldable pub get_vdisk_for_key : Virtual → BobKey → Option VDisk
get_vdisk_for_key m key = get_vdisk m (vdisk_id_from_key m key)

unfoldable pub get_target_nodes_for_key : Virtual → BobKey → Option (List Node)
get_target_nodes_for_key m key = Option.map (λ d. d.nodes) (get_vdisk_for_key m key)

-- The conditions of the `debug_assert!`s: no two targets have one index, and each is a node's.
unfoldable pub are_distinct : List Node → Bool
are_distinct [] = true
are_distinct (n ∷ ns) = not_target ns n && are_distinct ns

unfoldable pub are_known : List Node → List Node → Bool
are_known nodes targets = all (λ n. any (λ f. eqb n.index f.index) nodes) targets

-- `fetch_add(1)` on the shared offset, an `AtomicUsize` of 64 bits, wraps around.
unfoldable pub next_offset : Virtual → Virtual
next_offset m = record m { support_nodes_offset = (m.support_nodes_offset + 1) % 2 ^ 64 }

-- With the target nodes, for a `count` that is not zero.
unfoldable pub support_nodes_for : Bool → Virtual → List Node → ℕ → Option (List Node × Virtual)
unfolding next_offset
support_nodes_for debug_assertions m targets count =
    if leb (length m.nodes) (length targets)
    then some ([], m)
    else (elim (find_support_node_offset debug_assertions m.nodes targets m.support_nodes_offset) [
      | none ↦ none
      | some start ↦ elim (support_nodes_from m.nodes targets start count) [
        | none ↦ none
        | some support ↦
            debug_assert debug_assertions (leb (length support) count)
              (some (support, next_offset m))
      ]
    ])

-- The support nodes for `count` aliens, and the mapper with its offset moved on; `none` is a panic.
unfoldable pub get_support_nodes : Bool → Virtual → BobKey → ℕ → Option (List Node × Virtual)
unfolding support_nodes_for are_distinct are_known
get_support_nodes debug_assertions m key count =
    debug_assert debug_assertions (leb count (length m.nodes)) (
      if eqb count 0 then some ([], m) else (elim (get_target_nodes_for_key m key) [
        | none ↦ none
        | some targets ↦ debug_assert debug_assertions (are_distinct targets) (
            debug_assert debug_assertions (are_known m.nodes targets)
              (support_nodes_for debug_assertions m targets count))
      ]))

-- The loop of `get_operation` over the replicas of a vdisk.
unfoldable pub local_disk_paths :
    String → List NodeDisk → Option (List DiskPath) → Option (List DiskPath)
local_disk_paths local [] disks = disks
local_disk_paths local (r ∷ rs) disks =
    local_disk_paths local rs (
      if r.node_name == local
      then some (Option.get_or disks [] ++ disk_path_from r ∷ [])
      else disks)

unfoldable pub get_operation : Virtual → BobKey → Option (ℕ × Option (List DiskPath))
unfolding local_disk_paths
get_operation m key =
    Option.map (λ d. (d.id, local_disk_paths m.local_node_name d.replicas none))
      (get_vdisk_for_key m key)

-- `entry(..).and_modify(|c| *c += 1).or_insert(1)` for each replica.
unfoldable pub count_replica : List (String × ℕ) → NodeDisk → List (String × ℕ)
count_replica result r =
    insert result r.node_name (elim (get result r.node_name) [ none ↦ 1 | some c ↦ c + 1 ])

unfoldable pub count_replicas : List NodeDisk → List (String × ℕ) → List (String × ℕ)
unfolding count_replica
count_replicas [] result = result
count_replicas (r ∷ rs) result = count_replicas rs (count_replica result r)

unfoldable pub get_replicas_count_by_node : Virtual → BobKey → List (String × ℕ)
get_replicas_count_by_node m key = elim (get_vdisk_for_key m key) [
  | none ↦ []
  | some d ↦ count_replicas d.replicas []
]

-- The ids of the vdisks that have a replica on the disk of this node.
unfoldable pub get_vdisks_by_disk : Virtual → String → List ℕ
get_vdisks_by_disk m disk =
    map (λ p. p.0)
      (filter
        (λ p.
          any (λ r. r.disk_name == disk)
            (filter (λ r. r.node_name == m.local_node_name) p.1.replicas))
        m.vdisks)
