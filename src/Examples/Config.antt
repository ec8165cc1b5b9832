-- ===== src/Examples/Config.antt =====
-- A configuration of three nodes and two vdisks.
use bob.Prelude.{Option, String, [], length, refl, some, ℕ, ◌∷◌, ◌≡◌}
use mathlib.Core.List.{Perm}
use bob.Node.{DiskPath}
use bob.Config.{Cluster, ClusterNode, Replica, validate, check_ids, ids_of}
use bob.Config.Sorting.{sort}
use bob.Config.Ids.{upto, check_ids-perm}
use bob.Config.Checks.{
  valid, validate_no_duplicates, Unique, validate_no_duplicates-Unique, duplicate_node,
}
use bob.Config.Validated.{IsValid, validate-IsValid}
use bob.Map.{string_eq}

-- Every address has the port 20000.
abbrev pub port : String → Option (Option ℕ)
port address = some (some 20000)

abbrev pub disk1 : DiskPath
disk1 = record { name = "disk1"; path = "/tmp/d1" }

abbrev pub node_of : String → ClusterNode
node_of name = record { name = name; address = name; disks = disk1 ∷ [] }

abbrev replica : String → Replica
replica node = record { node = node; disk = "disk1" }

abbrev pub three_nodes : Cluster
three_nodes = record {
  nodes = node_of "n0" ∷ node_of "n1" ∷ node_of "n2" ∷ [];
  vdisks =
      record { id = 1; replicas = replica "n1" ∷ [] }
      ∷ record { id = 0; replicas = replica "n0" ∷ replica "n2" ∷ [] }
      ∷ [];
  racks = [];
}

pub validate-IsValid_input : validate port three_nodes ≡ valid
unfolding validate bob.Config.Checks.aggregate bob.Config.validate_node validate_no_duplicates
    bob.Config.validate_vdisk check_ids sort bob.Config.check_rack_nodes bob.Config.check_vdisks
validate-IsValid_input = refl

validate-IsValid_example :
    IsValid three_nodes × Perm (ids_of three_nodes) (upto 0 (length (ids_of three_nodes)))
validate-IsValid_example = validate-IsValid port three_nodes validate-IsValid_input

check_ids-perm_example : Perm (2 ∷ 0 ∷ 1 ∷ []) (upto 0 3)
unfolding check_ids sort
check_ids-perm_example = check_ids-perm (2 ∷ 0 ∷ 1 ∷ []) refl
