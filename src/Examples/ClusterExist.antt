-- ===== src/Examples/ClusterExist.antt =====
-- Two keys on two vdisks of three nodes: the one is in the aliens of another node, the other on a
-- secondary node.
use bob.Prelude.{
  Bool, List, String, [], arith, false, get_elem?, if◌then◌else◌, inl, inr, length, refl, some, suc,
  true, zero, ℕ, ◌<◌, ◌==◌, ◌↔◌, ◌∷◌, ◌≡◌,
}
use mathlib.Core.Option
use bob.Data.{BobKey}
use bob.Error.{ok, err, internal}
use bob.Node.{Node, VDisk}
use bob.Map.{get, nat_eq}
use bob.Mapper.{Virtual, get_target_nodes_for_key}
use bob.Mapper.Offset.{not_target}
use bob.Mapper.Build.Routed.{IsRouted, IsRoutedVdisk}
use bob.Cluster.Exist.{exist}
use bob.Cluster.Exist.Steps.{IsFound}
use bob.Cluster.Exist.Sources.{Storages, Source, IsSource, answers_of, has, exist-lem}

abbrev node : ℕ → String → Node
node i name = record { name = name; address = name; index = i; conn_available = true }

abbrev nodes : List Node
nodes = node 0 "n0" ∷ node 1 "n1" ∷ node 2 "n2" ∷ []

abbrev vdisk : ℕ → List Node → VDisk
vdisk id targets = record { id = id; replicas = []; nodes = targets }

abbrev vdisk0 : VDisk
vdisk0 = vdisk 0 (node 0 "n0" ∷ node 1 "n1" ∷ [])

abbrev vdisk1 : VDisk
vdisk1 = vdisk 1 (node 1 "n1" ∷ node 2 "n2" ∷ [])

abbrev mapper : Virtual
mapper = record {
  local_node_name = "n0";
  local_node_address = "n0";
  disks = [];
  vdisks = (0, vdisk0) ∷ (1, vdisk1) ∷ [];
  nodes = nodes;
  support_nodes_offset = 0;
}

vdisk_at :
    (id : ℕ)
    → id < 2
    → (d : VDisk) × (get mapper.vdisks id ≡ some d) × (d.id ≡ id) × IsRoutedVdisk nodes d
unfolding get not_target
vdisk_at zero h = (
  vdisk0,
  refl,
  refl,
  record {
    some_node = λ e. cc;
    distinct = (refl, (refl, tt));
    known = (inl refl, (inr (inl refl), tt));
    replicated = λ r m. absurd m;
  },
)
vdisk_at (suc zero) h = (
  vdisk1,
  refl,
  refl,
  record {
    some_node = λ e. cc;
    distinct = (refl, (refl, tt));
    known = (inr (inl refl), (inr (inr (inl refl)), tt));
    replicated = λ r m. absurd m;
  },
)
vdisk_at (suc (suc id)) h = absurd (omega (arith, h))

mapper-IsRouted : IsRouted mapper
mapper-IsRouted = record {
  indexed = (refl, (refl, (refl, tt)));
  vdisk_at = vdisk_at;
  some_vdisk = omega arith;
}

abbrev keys : List BobKey
keys = (0 ∷ []) ∷ (1 ∷ []) ∷ []

-- The disks of `n1` fail, `n2` holds the key 1, and the aliens of `n2` the key 0.
abbrev storages : Storages
storages = record {
  here = ok (λ k. false);
  alien_here = err internal;
  remote = λ n. if n == "n1" then err internal else ok (λ k. true);
  alien = λ n. if n == "n2" then ok (λ k. true) else err internal;
}

exist-lem_example :
    (result : List Bool) × (exist (answers_of storages (λ names. names)) mapper keys
      ≡ some (ok result))
    × (length result ≡ 2)
    × ((i : ℕ) (key : BobKey)
        → get_elem? keys i ≡ some key
        → IsFound result i ↔ (
            (s : Source) × IsSource mapper
              (Option.get_or (get_target_nodes_for_key mapper key) [])
              s
            × (has storages s key ≡ true)))
exist-lem_example =
    exist-lem storages (λ names. names) mapper keys mapper-IsRouted (λ names n. (λ m. m, λ m. m))
