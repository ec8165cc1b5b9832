-- ===== src/Cluster/Targets.antt =====
-- The targets of a key that a put or a delete reaches (bob/src/cluster/quorum.rs): the other nodes
-- of its vdisk, and this one where it has a disk of it.
use bob.Prelude.{
  Bool, Bool-cases, List, Member, Option, Option-cases, String, [], ap, arith, eq_iff, false,
  filter, inl, inr, length, length-filter-le, none, not, refl, some, sym, ℕ, ◌+◌, ◌==◌, ◌∙◌, ◌∷◌,
  ◌≡◌, ◌≢◌, ◌≤◌, ◌⊎◌,
}
use bob.Data.{BobKey}
use bob.Node.{Node, NodeDisk, VDisk, DiskPath}
use bob.Mapper.{Virtual, get_vdisk_for_key, local_disk_paths}
use bob.Mapper.Support.Selection.{no_more_than_nodes}
use bob.Mapper.Build.Routed.{IsRouted, IsRoutedVdisk}

-- The mapper routes the key to the vdisk.
pub record Routes (key : BobKey) (v : VDisk) (m : Virtual) : Type 0 where
  pub routed : IsRouted m
  pub found : get_vdisk_for_key m key ≡ some v
  pub routed_vdisk : IsRoutedVdisk m.nodes v

-- One for this node, where it has a disk of the vdisk.
abbrev pub local_count : Option (List DiskPath) → ℕ
local_count none = 0
local_count (some paths) = 1

filter_drops :
    {A : Type 0} (p : A → Bool) (n : A) (xs : List A)
    → Member n xs
    → p n ≡ false
    → length (filter p xs) + 1 ≤ length xs
filter_drops p n [] m e = absurd m
filter_drops p n (x ∷ xs) (inl q) e =
    let f : p x ≡ false = ap p (sym q) ∙ e in rw f (omega (arith, length-filter-le p xs))
filter_drops p n (x ∷ xs) (inr m) e = ground (arith, filter_drops p n xs m e)

local_replica :
    (local : String) (rs : List NodeDisk) (before : Option (List DiskPath)) (paths : List DiskPath)
    → local_disk_paths local rs before ≡ some paths
    → (before ≢ none) ⊎ ((r : NodeDisk) × Member r rs × (r.node_name ≡ local))
unfolding local_disk_paths
local_replica local [] before paths e = inl (λ f. cc (e, f))
local_replica local (r ∷ rs) before paths e = elim (Bool-cases (r.node_name == local)) [
  | inl t ↦ inr (r, inl refl, (eq_iff r.node_name local).0 t)
  | inr f ↦ elim (local_replica local rs before paths (rw (f) at e)) [
    | inl n ↦ inl n
    | inr (s, m, q) ↦ inr (s, inr m, q)
  ]
]

-- The other nodes of the vdisk, and this one where it has a disk of it, are not more than the nodes.
pub targets_bound :
    (local : String) (nodes : List Node) (v : VDisk)
    → IsRoutedVdisk nodes v
    → length (filter (λ n. not (n.name == local)) v.nodes)
        + local_count (local_disk_paths local v.replicas none)
      ≤ length nodes
targets_bound local nodes v i =
    let all = no_more_than_nodes v.nodes nodes i.distinct i.known in
    let others = length-filter-le (λ n. not (n.name == local)) v.nodes in
    elim (Option-cases (local_disk_paths local v.replicas none)) [
      | inl e ↦ rw e (omega arith)
      | inr (paths, e) ↦ elim (local_replica local v.replicas none paths e) [
        | inl n ↦ absurd (n refl)
        | inr (r, m, q) ↦
            let (n, k, f) = i.replicated r m in
            let dropped =
              filter_drops (λ n. not (n.name == local)) n v.nodes k
                (ap not ((eq_iff n.name local).1 (f ∙ q))) in
            rw e (omega arith)
      ]
    ]
