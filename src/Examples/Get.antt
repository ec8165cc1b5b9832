-- ===== src/Examples/Get.antt =====
-- A get that only the alien storage of another node can answer.
use bob.Prelude.{String, [], if◌then◌else◌, inl, inr, refl, some, true, ℕ, ◌==◌, ◌||◌, ◌∷◌, ◌≡◌}
use bob.Error.{ok, err, internal}
use bob.Data.{BobData}
use bob.Node.{Node, NodeDisk, VDisk}
use bob.Options.{get_normal}
use bob.Map.{get}
use bob.Mapper.{
  Virtual, get_vdisk_for_key, get_vdisk, vdisk_id_from_key, get_operation, get_target_nodes_for_key,
}
use bob.Mapper.VdiskId.{vdisk_id_by_mod}
use bob.Cluster.Get.{Answers}
use bob.Cluster.Get.Sources.{Source, IsSource, answer, remote_alien}
use bob.Cluster.Get.Replies.{get-finds, get_sound}

abbrev node : ℕ → String → Node
node i name = record { name = name; address = name; index = i; conn_available = true }

abbrev on_n1 : NodeDisk
on_n1 = record { node_name = "n1"; disk_name = "disk1"; disk_path = "/tmp/d1" }

abbrev the_vdisk : VDisk
the_vdisk = record { id = 0; replicas = on_n1 ∷ []; nodes = node 1 "n1" ∷ [] }

abbrev mapper : Virtual
mapper = record {
  local_node_name = "n0";
  local_node_address = "n0";
  disks = [];
  vdisks = (0, the_vdisk) ∷ [];
  nodes = node 0 "n0" ∷ node 1 "n1" ∷ node 2 "n2" ∷ [];
  support_nodes_offset = 0;
}

abbrev data1 : BobData
data1 = record { inner = 9 ∷ []; meta = record { timestamp = 1 } }

abbrev answers : Answers
answers = record {
  on_local = λ op. err internal;
  on_remote =
      λ n options. if get_normal options || (n.name == "n1") then err internal else ok data1;
  completion = λ ns. ns;
}

found_vdisk : get_vdisk_for_key mapper (1 ∷ []) ≡ some the_vdisk
unfolding get_vdisk_for_key get_vdisk get vdisk_id_from_key vdisk_id_by_mod
found_vdisk = refl

get-finds_example : (c : BobData) × (bob.Cluster.Get.get answers mapper (1 ∷ []) ≡ some (ok c))
get-finds_example =
    get-finds answers mapper the_vdisk (1 ∷ []) (remote_alien (node 2 "n2")) data1 found_vdisk
      (λ ns n m. m) (inr (inl refl)) refl

get_sound_example :
    (s : Source) × IsSource mapper the_vdisk s × (answer answers the_vdisk s ≡ ok data1)
unfolding bob.Cluster.Get.get get_operation get_target_nodes_for_key get_vdisk_for_key get_vdisk get
    vdisk_id_from_key vdisk_id_by_mod
get_sound_example = get_sound answers mapper the_vdisk (1 ∷ []) data1 found_vdisk (λ ns n m. m) refl
