-- ===== src/Mapper/Build/Routed.antt =====
-- Keys and the vdisks of a mapper (bob-common/src/mapper.rs).
use native.Mathlib.Nat.{mod-lt}
use bob.Prelude.{
  All, Bool, List, Member, Member-filter, Member-filtered, [], any, any-Member, ap, arith, eq_iff,
  false, filter, inl, inr, length, refl, some, subst, sym, true, ℕ, ◌%◌, ◌+◌, ◌<◌, ◌==◌, ◌^◌, ◌∙◌,
  ◌∷◌, ◌≡◌, ◌≢◌, ◌≤◌,
}
use bob.Map.{get, nat_eq, string_eq}
use bob.Data.{BobKey}
use bob.Node.{Node, NodeDisk, VDisk}
use bob.Config.{ClusterNode}
use bob.Mapper.{Virtual, vdisk_id_from_key, get_vdisk, get_vdisk_for_key}
use bob.Mapper.Offset.{not_target}
use bob.Mapper.VdiskId.{mod_fold, vdisk_id_by_mod, vdisk_id_by_mod-eq-mod}
use bob.Data.Bytes.{le_value}
use bob.Mapper.Support.Passes.{Distinct}
use bob.Mapper.Support.Order.{Indexed}
use bob.Mapper.Build.{number, vdisk_nodes}
use bob.Mapper.Build.Located.{AreLocated, IsLocated}

-- The nodes of a vdisk: some, with different indices, all of the cluster, and among them the node of
-- each replica.
pub record IsRoutedVdisk (nodes : List Node) (d : VDisk) : Type 0 where
  pub some_node : d.nodes ≢ []
  pub distinct : Distinct d.nodes
  pub known : All (λ n. Member n nodes) d.nodes
  pub replicated :
      (r : NodeDisk) → Member r d.replicas → (n : Node) × Member n d.nodes × (n.name ≡ r.node_name)

pub record IsRouted (m : Virtual) : Type 0 where
  pub indexed : Indexed 0 m.nodes
  pub vdisk_at :
      (id : ℕ)
      → id < length m.vdisks
      → (d : VDisk) × (get m.vdisks id ≡ some d) × (d.id ≡ id) × IsRoutedVdisk m.nodes d
  pub some_vdisk : 0 < length m.vdisks

pub number-Indexed : (i : ℕ) (cs : List ClusterNode) → Indexed i (number i cs)
unfolding number
number-Indexed i [] = tt
number-Indexed i (c ∷ cs) = (refl, number-Indexed (i + 1) cs)

Indexed-later :
    (i j : ℕ) (nodes : List Node) (n : Node)
    → n.index < j
    → Indexed j nodes
    → not_target nodes n ≡ true
unfolding not_target
Indexed-later i j [] n p h = refl
Indexed-later i j (m ∷ nodes) n p h =
    ground (arith, h.0, Indexed-later i (j + 1) nodes n (omega arith) h.1)

Indexed-Distinct : (i : ℕ) (nodes : List Node) → Indexed i nodes → Distinct nodes
Indexed-Distinct i [] h = tt
Indexed-Distinct i (n ∷ nodes) h =
    (Indexed-later i (i + 1) nodes n (omega (arith, h.0)) h.1, Indexed-Distinct (i + 1) nodes h.1)

not_target-filter :
    (p : Node → Bool) (nodes : List Node) (n : Node)
    → not_target nodes n ≡ true
    → not_target (filter p nodes) n ≡ true
unfolding not_target
not_target-filter p [] n h = refl
not_target-filter p (m ∷ nodes) n h = ground (arith, not_target-filter p nodes n)

filter-Distinct : (p : Node → Bool) (nodes : List Node) → Distinct nodes → Distinct (filter p nodes)
filter-Distinct p [] h = tt
filter-Distinct p (n ∷ nodes) h =
    ground (arith, not_target-filter p nodes n, filter-Distinct p nodes h.1)

filter-known : (p : Node → Bool) (nodes : List Node) → All (λ n. Member n nodes) (filter p nodes)
filter-known p nodes = go (filter p nodes) (λ n m. (Member-filter p n nodes m).0)
  where
    go :
        (xs : List Node)
        → ((n : Node) → Member n xs → Member n nodes)
        → All (λ n. Member n nodes) xs
    go [] h = tt
    go (x ∷ xs) h = (h x (inl refl), go xs (λ n m. h n (inr m)))

named :
    (i : ℕ) (cs : List ClusterNode) (c : ClusterNode)
    → Member c cs
    → (n : Node) × Member n (number i cs) × (n.name ≡ c.name)
unfolding number
named i [] c h = absurd h
named i (c' ∷ cs) c (inl e) = (
  record { name = c'.name; address = c'.address; index = i; conn_available = false },
  inl refl,
  ap (λ x. x.name) (sym e),
)
named i (c' ∷ cs) c (inr h) = let (n, m, e) = named (i + 1) cs c h in (n, inr m, e)

filter-some :
    (p : Node → Bool) (nodes : List Node) (n : Node)
    → Member n nodes
    → p n ≡ true
    → filter p nodes ≢ []
filter-some p [] n h e = absurd h
filter-some p (m ∷ nodes) n h e = ground (arith, filter-some p nodes n, ap p)

-- The node of a located replica is one of the vdisk's nodes.
located_node :
    (cs : List ClusterNode) (ds : List NodeDisk) (d : NodeDisk)
    → Member d ds
    → IsLocated cs d
    → (n : Node) × Member n (vdisk_nodes (number 0 cs) ds) × (n.name ≡ d.node_name)
unfolding vdisk_nodes
located_node cs ds d k (c, m, e) =
    let (n, j, f) = named 0 cs c m in
    let test =
      (any-Member (λ r. r.node_name == n.name) ds).1
        (d, k, (eq_iff d.node_name n.name).1 (sym (f ∙ e))) in
    (n, Member-filtered _ n (number 0 cs) j test, f ∙ e)

All-at : (P : NodeDisk → Type 0) (ds : List NodeDisk) (d : NodeDisk) → All P ds → Member d ds → P d
All-at P [] d h m = absurd m
All-at P (x ∷ ds) d h (inl e) = subst P (sym e) h.0
All-at P (x ∷ ds) d h (inr m) = All-at P ds d h.1 m

-- The nodes of a vdisk whose replicas are located.
pub routed_vdisk :
    (cs : List ClusterNode) (ds : List NodeDisk) (id : ℕ)
    → AreLocated cs ds
    → IsRoutedVdisk
        (number 0 cs)
        (record { id = id; replicas = ds; nodes = vdisk_nodes (number 0 cs) ds })
unfolding vdisk_nodes
routed_vdisk cs [] id h = absurd (h.0 refl)
routed_vdisk cs (d ∷ ds) id h =
    let (c, m, e) = h.1.0 in
    let (n, k, f) = named 0 cs c m in
    record {
      some_node =
          filter-some (λ (node : Node). any (λ r. r.node_name == node.name) (d ∷ ds)) (number 0 cs)
            n k (ground (arith, eq_iff d.node_name n.name));
      distinct =
          filter-Distinct _ (number 0 cs) (Indexed-Distinct 0 (number 0 cs) (number-Indexed 0 cs));
      known = filter-known _ (number 0 cs);
      replicated = λ r k. located_node cs (d ∷ ds) r k (All-at (IsLocated cs) (d ∷ ds) r h.1 k);
    }

mod_fold-lt :
    (len : ℕ) (key : List ℕ) (rem bmult : ℕ) → rem < len → mod_fold len key rem bmult < len
unfolding mod_fold
mod_fold-lt len [] rem bmult h = h
mod_fold-lt len (b ∷ key) rem bmult h = mod_fold-lt len key _ _ (mod-lt _ (omega arith))

-- In a mapper that routes every key, each key has a vdisk, the one of its id.
pub vdisk_for_key :
    (m : Virtual) (key : BobKey)
    → IsRouted m
    → (d : VDisk) × (get_vdisk_for_key m key ≡ some d)
      × (d.id ≡ vdisk_id_from_key m key)
      × IsRoutedVdisk m.nodes d
unfolding get_vdisk_for_key get_vdisk vdisk_id_from_key vdisk_id_by_mod
vdisk_for_key m key r = r.vdisk_at _ (mod_fold-lt (length m.vdisks) key 0 1 r.some_vdisk)

-- In a mapper that routes every key, with at most 2 ^ 32 vdisks, a key of bytes has the vdisk whose
-- id is the number that the bytes stand for, least significant byte first, modulo the number of
-- vdisks. The vdisk has at least one node, all of its nodes are nodes of the cluster, and no two of
-- them have the same index.
pub vdisk_for_key-le_value :
    (m : Virtual) (key : BobKey)
    → IsRouted m
    → length m.vdisks ≤ 2 ^ 32
    → All (λ b. b < 256) key
    → (d : VDisk) × (get_vdisk_for_key m key ≡ some d)
      × (d.id ≡ le_value key % length m.vdisks)
      × IsRoutedVdisk m.nodes d
unfolding vdisk_id_from_key
vdisk_for_key-le_value m key r w bs =
    let (d, e, same, i) = vdisk_for_key m key r in
    (d, e, same ∙ vdisk_id_by_mod-eq-mod key (length m.vdisks) r.some_vdisk w bs, i)
