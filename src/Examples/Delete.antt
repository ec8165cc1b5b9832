-- ===== src/Examples/Delete.antt =====
-- A delete on two nodes of three, of which the other one fails, and a support node takes its aliens;
-- and one where the disk here fails.
use bob.Prelude.{
  String, [], ap, arith, eq_iff, false, if◌then◌else◌, inl, inr, refl, some, suc, sym, true, zero,
  ℕ, ◌<◌, ◌==◌, ◌∷◌, ◌≡◌, ◌⊎◌,
}
use bob.Error.{Result, ok, err, timeout}
use bob.Node.{Node, NodeDisk, VDisk, disk_path_from}
use bob.Options.{delete_local_options}
use bob.Map.{nat_eq, get}
use bob.Mapper.{
  get_vdisk_for_key, get_vdisk, vdisk_id_from_key, get_operation, get_target_nodes_for_key,
  get_support_nodes, local_disk_paths,
}
use bob.Mapper.Support.{support_nodes_from}
use bob.Mapper.Offset.{
  find_support_node_offset, retry, try_find_support_node_offset_at_one_pass, is_available,
  not_target,
}
use bob.Mapper.VdiskId.{vdisk_id_by_mod}
use bob.Backend.Storage.{is_data_alien}
use bob.Cluster.World.{joined}
use bob.Cluster.Put.{finished}
use bob.Cluster.Delete.{World, Environment, call_node_delete, backend_delete, delete}
use bob.Cluster.Delete.Calls.{Answered}
use bob.Cluster.Delete.Forced.{Forced}
use bob.Cluster.Delete.Replies.{Deleted, delete-failed_remotes, delete-failed_disks}
use bob.Cluster.Targets.{Routes}
use bob.Mapper.Build.Routed.{IsRoutedVdisk}
use bob.Cluster.Delete.Total.{delete-no_panic}

abbrev node : ℕ → String → Node
node i name = record { name = name; address = name; index = i; conn_available = true }

abbrev on : String → NodeDisk
on name = record { node_name = name; disk_name = "disk1"; disk_path = "/tmp/d1" }

abbrev the_vdisk : VDisk
the_vdisk = record {
  id = 0;
  replicas = on "n0" ∷ on "n1" ∷ [];
  nodes = node 0 "n0" ∷ node 1 "n1" ∷ [];
}

abbrev start : World
start = record {
  history = [];
  mapper = record {
    local_node_name = "n0";
    local_node_address = "n0";
    disks = [];
    vdisks = (0, the_vdisk) ∷ [];
    nodes = node 0 "n0" ∷ node 1 "n1" ∷ node 2 "n2" ∷ [];
    support_nodes_offset = 0;
  };
}

-- Deletes at `n1`, and on the disks of this node, fail.
abbrev failing : Environment
failing = record {
  on_remote_delete = λ h n options. if n.name == "n1" then joined (err timeout) else joined (ok tt);
  on_local_delete = λ h op force. if is_data_alien op then ok 1 else err timeout;
  completion = λ h requests. requests;
  debug_assertions = true;
}

found_vdisk : get_vdisk_for_key start.mapper (1 ∷ 2 ∷ []) ≡ some the_vdisk
unfolding get_vdisk_for_key get_vdisk get vdisk_id_from_key vdisk_id_by_mod
found_vdisk = refl

replies_ok : (delete failing (1 ∷ 2 ∷ []) start).0 ≡ finished (ok tt)
unfolding delete get_operation get_vdisk_for_key get_vdisk get vdisk_id_from_key vdisk_id_by_mod
    get_target_nodes_for_key call_node_delete backend_delete get_support_nodes support_nodes_from
    find_support_node_offset retry try_find_support_node_offset_at_one_pass is_available not_target
    bob.Mapper.Support.node_at bob.Mapper.Offset.asserted_pass
replies_ok = refl

delete-failed_remotes_example :
    let w = (delete failing (1 ∷ 2 ∷ []) start).1 in
    Answered (node 1 "n1") delete_local_options w.history
    ⊎ Forced (vdisk_id_from_key start.mapper (1 ∷ 2 ∷ [])) "n1" w.history
delete-failed_remotes_example =
    delete-failed_remotes failing (1 ∷ 2 ∷ []) the_vdisk start (node 1 "n1") found_vdisk
      (λ h rs r m. m) replies_ok (inr (inl refl))
      (λ e. let f : false ≡ true = (eq_iff "n1" "n0").1 e in absurd (cc f))

delete-failed_disks_example :
    let w = (delete failing (1 ∷ 2 ∷ []) start).1 in
    Deleted failing 0 (disk_path_from (on "n0")) w.history
    ⊎ Forced (vdisk_id_from_key start.mapper (1 ∷ 2 ∷ [])) "n0" w.history
unfolding local_disk_paths
delete-failed_disks_example =
    delete-failed_disks failing (1 ∷ 2 ∷ []) the_vdisk start (node 0 "n0")
      (disk_path_from (on "n0")) found_vdisk (λ h rs r m. m) replies_ok (inl refl) refl (inl refl)

the_vdisk-IsRouted : IsRoutedVdisk start.mapper.nodes the_vdisk
unfolding not_target
the_vdisk-IsRouted = record {
  some_node = λ e. cc;
  distinct = (refl, (refl, tt));
  known = (inl refl, (inr (inl refl), tt));
  replicated = λ r m. elim m [
    | inl e ↦ (node 0 "n0", inl refl, ap (λ x. x.node_name) (sym e))
    | inr (inl e) ↦ (node 1 "n1", inr (inl refl), ap (λ x. x.node_name) (sym e))
    | inr (inr n) ↦ absurd n
  ];
}

vdisk_at_zero :
    (id : ℕ)
    → id < 1
    → (v : VDisk) × (get start.mapper.vdisks id ≡ some v)
      × (v.id ≡ id)
      × IsRoutedVdisk start.mapper.nodes v
unfolding get
vdisk_at_zero zero h = (the_vdisk, refl, refl, the_vdisk-IsRouted)
vdisk_at_zero (suc id) h = absurd (omega arith)

routes : Routes (1 ∷ 2 ∷ []) the_vdisk start.mapper
routes = record {
  routed = record {
    indexed = (refl, (refl, (refl, tt)));
    vdisk_at = vdisk_at_zero;
    some_vdisk = omega arith;
  };
  found = found_vdisk;
  routed_vdisk = the_vdisk-IsRouted;
}

delete-no_panic_example :
    (r : Result (Unit {0})) × ((delete failing (1 ∷ 2 ∷ []) start).0 ≡ finished r)
delete-no_panic_example =
    delete-no_panic failing (1 ∷ 2 ∷ []) the_vdisk start routes (λ h rs. omega arith)
