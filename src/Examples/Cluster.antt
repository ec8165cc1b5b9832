-- ===== src/Examples/Cluster.antt =====
-- A put to two nodes of three, of which the remote one or the local one fails.
use bob.Prelude.{
  List, Member, String, [], ap, arith, eq_iff, false, if◌then◌else◌, inl, inr, length, none, refl,
  some, suc, sym, true, zero, ℕ, ◌+◌, ◌<◌, ◌∷◌, ◌≡◌, ◌≢◌, ◌≤◌, ◌⊎◌,
}
use bob.Error.{ok, err, timeout, internal}
use bob.Data.{BobKey, BobData}
use bob.Node.{Node, DiskPath, NodeDisk, VDisk, disk_path_from}
use bob.Options.{put_local_options}
use bob.Map.{nat_eq, get, insert}
use bob.Backend.Storage.{new_local, is_data_alien}
use bob.Mapper.{
  get_vdisk_for_key, get_target_nodes_for_key, get_vdisk, vdisk_id_from_key, get_operation,
  get_replicas_count_by_node, count_replicas, get_support_nodes, local_disk_paths,
}
use bob.Mapper.VdiskId.{vdisk_id_by_mod}
use bob.Mapper.Support.{support_nodes_from}
use bob.Mapper.Offset.{
  find_support_node_offset, retry, try_find_support_node_offset_at_one_pass, is_available,
  not_target,
}
use bob.Cluster.World.{
  await_task, backend_put, call_put, Task, joined, remote_put, local_put, World, Environment,
}
use bob.Cluster.Tasks.Waiting.{acks}
use bob.Cluster.Put.{panicked, Background, put, background_put}
use bob.Cluster.Put.Aliens.{Covered}
use bob.Cluster.Put.Durable.{Handled}
use bob.Cluster.Put.Attempts.{left, Tried, put-Tried}
use bob.Cluster.Put.Total.{put-no_panic, background_put-no_panic}
use bob.Cluster.Targets.{Routes}
use bob.Mapper.Build.Routed.{IsRoutedVdisk}
use bob.Cluster.Put.Replies.{
  put-quorum, put-failed_remotes, put-failed_locals, background_put-covers,
  background_put-covers_new,
}

abbrev node : ℕ → String → Node
node i name = record { name = name; address = name; index = i; conn_available = true }

abbrev nodes : List Node
nodes = node 0 "n0" ∷ node 1 "n1" ∷ node 2 "n2" ∷ []

abbrev on : String → NodeDisk
on name = record { node_name = name; disk_name = "disk1"; disk_path = "/tmp/d1" }

abbrev the_vdisk : VDisk
the_vdisk = record {
  id = 0;
  replicas = on "n0" ∷ on "n1" ∷ [];
  nodes = node 0 "n0" ∷ node 1 "n1" ∷ [];
}

abbrev start : World
start = record {
  history = [];
  mapper = record {
    local_node_name = "n0";
    local_node_address = "n0";
    disks = [];
    vdisks = (0, the_vdisk) ∷ [];
    nodes = nodes;
    support_nodes_offset = 0;
  };
}

abbrev key : BobKey
key = 1 ∷ 2 ∷ []

abbrev data1 : BobData
data1 = record { inner = 9 ∷ []; meta = record { timestamp = 1 } }

-- Every put to a target node fails.
abbrev remote_fails : Environment
remote_fails = record {
  on_remote_put = λ h t k d options. joined (err timeout);
  on_support_put = λ h n k d options. ok tt;
  on_local_put = λ h op k d. ok tt;
  completion = λ h ts. ts;
  debug_assertions = true;
  overflow_checks = true;
  debug_logging = true;
}

-- The disks of this node fail.
abbrev local_fails : Environment
local_fails = record {
  on_remote_put = λ h t k d options. joined (ok tt);
  on_support_put = λ h n k d options. ok tt;
  on_local_put = λ h op k d. if is_data_alien op then ok tt else err internal;
  completion = λ h ts. ts;
  debug_assertions = true;
  overflow_checks = true;
  debug_logging = true;
}

abbrev task1 : Task
task1 = record { node = node 1 "n1"; affected_replicas = 1 }

found_vdisk : get_vdisk_for_key start.mapper key ≡ some the_vdisk
unfolding get_vdisk_for_key get_vdisk get vdisk_id_from_key vdisk_id_by_mod
found_vdisk = refl

the_vdisk-IsRouted : IsRoutedVdisk nodes the_vdisk
unfolding not_target
the_vdisk-IsRouted = record {
  some_node = λ e. cc;
  distinct = (refl, (refl, tt));
  known = (inl refl, (inr (inl refl), tt));
  replicated = λ r m. elim m [
    | inl e ↦ (node 0 "n0", inl refl, ap (λ x. x.node_name) (sym e))
    | inr (inl e) ↦ (node 1 "n1", inr (inl refl), ap (λ x. x.node_name) (sym e))
    | inr (inr n) ↦ absurd n
  ];
}

vdisk_at_zero :
    (id : ℕ)
    → id < 1
    → (v : VDisk) × (get start.mapper.vdisks id ≡ some v) × (v.id ≡ id) × IsRoutedVdisk nodes v
unfolding get
vdisk_at_zero zero h = (the_vdisk, refl, refl, the_vdisk-IsRouted)
vdisk_at_zero (suc id) h = absurd (omega arith)

routes : Routes key the_vdisk start.mapper
routes = record {
  routed = record {
    indexed = (refl, (refl, (refl, tt)));
    vdisk_at = vdisk_at_zero;
    some_vdisk = omega arith;
  };
  found = found_vdisk;
  routed_vdisk = the_vdisk-IsRouted;
}

-- This node has one replica.
one_replica :
    (paths : List DiskPath)
    → local_disk_paths "n0" the_vdisk.replicas none ≡ some paths
    → length paths ≤ 1
unfolding local_disk_paths
one_replica paths h =
    let disk : DiskPath = record { name = "disk1"; path = "/tmp/d1" } in
    let expected : some (disk ∷ []) ≡ some paths = h in
    let same : disk ∷ [] ≡ paths = cc expected in rw (sym same) (omega arith)

put-no_panic_example : (put remote_fails key data1 2 start).0.0 ≢ panicked
put-no_panic_example =
    put-no_panic remote_fails key data1 2 start the_vdisk routes (λ h ts. omega arith)
      (λ paths e o l. omega (arith, one_replica paths e))

put-quorum_example :
    (2 + acks start.history ≤ acks (put remote_fails key data1 2 start).1.history)
    ⊎ ((put remote_fails key data1 2 start).0.1 ≡ none)
      × ((x : String) × Covered key data1
            (vdisk_id_from_key start.mapper key)
            x
            (put remote_fails key data1 2 start).1.history)
unfolding put get_operation get_vdisk_for_key get_vdisk get vdisk_id_from_key vdisk_id_by_mod
    get_target_nodes_for_key await_task backend_put call_put get_replicas_count_by_node
    count_replicas insert get_support_nodes support_nodes_from find_support_node_offset retry
    try_find_support_node_offset_at_one_pass is_available not_target bob.Mapper.Support.node_at
    bob.Mapper.Offset.asserted_pass
put-quorum_example = put-quorum remote_fails key data1 2 start the_vdisk found_vdisk refl

put-failed_remotes_example :
    Member (remote_put task1 key data1 put_local_options (joined (err timeout))) start.history
    ⊎ Handled remote_fails key data1
        (vdisk_id_from_key start.mapper key)
        "n1"
        (put remote_fails key data1 2 start).0.1
        (put remote_fails key data1 2 start).1
unfolding put get_operation get_vdisk_for_key get_vdisk get vdisk_id_from_key vdisk_id_by_mod
    get_target_nodes_for_key await_task backend_put call_put get_replicas_count_by_node
    count_replicas insert get_support_nodes support_nodes_from find_support_node_offset retry
    try_find_support_node_offset_at_one_pass is_available not_target bob.Mapper.Support.node_at
    bob.Mapper.Offset.asserted_pass
put-failed_remotes_example =
    put-failed_remotes remote_fails key data1 2 start the_vdisk found_vdisk refl task1 key data1
      put_local_options timeout (inr (inr (inl refl)))

put-failed_locals_example :
    Member
      (local_put (new_local 0 (disk_path_from (on "n0"))) key data1 (err internal))
      start.history
    ⊎ Handled local_fails key data1
        (vdisk_id_from_key start.mapper key)
        "n0"
        (put local_fails key data1 1 start).0.1
        (put local_fails key data1 1 start).1
unfolding put get_operation get_vdisk_for_key get_vdisk get vdisk_id_from_key vdisk_id_by_mod
    get_target_nodes_for_key await_task backend_put call_put get_replicas_count_by_node
    count_replicas insert get_support_nodes support_nodes_from find_support_node_offset retry
    try_find_support_node_offset_at_one_pass is_available not_target bob.Mapper.Support.node_at
    bob.Mapper.Offset.asserted_pass
put-failed_locals_example =
    put-failed_locals local_fails key data1 1 start the_vdisk found_vdisk refl 0
      (disk_path_from (on "n0")) key data1 internal (inl refl)

put-Tried_example :
    Member task1 (left (put remote_fails key data1 1 start).0.1)
    ⊎ Tried remote_fails key data1 task1 (put remote_fails key data1 1 start).1.history
unfolding get_replicas_count_by_node count_replicas insert get get_vdisk_for_key get_vdisk
    vdisk_id_from_key vdisk_id_by_mod
put-Tried_example =
    put-Tried remote_fails key data1 1 start the_vdisk (node 1 "n1") found_vdisk
      (λ paths e o l. one_replica paths e) (λ h ts t m. m) (inr (inl refl))
      (λ e. let f : false ≡ true = (eq_iff "n1" "n0").1 e in absurd (cc f))

-- One failed node from the first part of `put`, and a task that was not awaited.
abbrev rest : Background
rest = record { rest_tasks = task1 ∷ []; failed_nodes = "n0" ∷ [] }

background_put-no_panic_example : (background_put remote_fails key data1 rest start).0 ≢ panicked
background_put-no_panic_example =
    background_put-no_panic remote_fails key data1 rest start the_vdisk routes (λ t. omega arith)

background_put-covers_example :
    Covered key data1
      (vdisk_id_from_key start.mapper key)
      "n0"
      (background_put remote_fails key data1 rest start).1.history
unfolding background_put get_operation get_vdisk_for_key get_vdisk get vdisk_id_from_key
    vdisk_id_by_mod get_target_nodes_for_key await_task backend_put call_put
    get_replicas_count_by_node count_replicas insert get_support_nodes support_nodes_from
    find_support_node_offset retry try_find_support_node_offset_at_one_pass is_available not_target
    bob.Mapper.Support.node_at bob.Mapper.Offset.asserted_pass
background_put-covers_example =
    background_put-covers remote_fails key data1 rest start refl "n0" (inl refl)

background_put-covers_new_example :
    Member (remote_put task1 key data1 put_local_options (joined (err timeout))) start.history
    ⊎ Covered key data1
        (vdisk_id_from_key start.mapper key)
        "n1"
        (background_put remote_fails key data1 rest start).1.history
unfolding background_put get_operation get_vdisk_for_key get_vdisk get vdisk_id_from_key
    vdisk_id_by_mod get_target_nodes_for_key await_task backend_put call_put
    get_replicas_count_by_node count_replicas insert get_support_nodes support_nodes_from
    find_support_node_offset retry try_find_support_node_offset_at_one_pass is_available not_target
    bob.Mapper.Support.node_at bob.Mapper.Offset.asserted_pass
background_put-covers_new_example =
    background_put-covers_new remote_fails key data1 rest start refl task1 key data1
      put_local_options timeout (inr (inr (inl refl)))
