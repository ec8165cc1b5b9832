-- ===== src/Mapper/Build/Located.antt =====
-- Where the replicas of a configuration are found, and the keys of the map of vdisks
-- (bob-common/src/configs/cluster.rs, bob-common/src/mapper.rs).
use bob.Prelude.{
  All, Bool-cases, List, Member, Member-append, String, [], all, ap, arith, eqb, eqb_refl, eqb→eq,
  false, find?, find?-some, inl, inr, length, map, not, refl, some, subst, suc, sym, ℕ, ◌++◌, ◌==◌,
  ◌∷◌, ◌≡◌, ◌≢◌,
}
use mathlib.Core.List.{append_assoc, append-nil}
use bob.Map.{get, insert, nat_eq, string_eq}
use bob.Node.{Node, NodeDisk, VDisk, DiskPath}
use bob.Config.Checks.{Unique}
use bob.Config.{ClusterNode, VDiskConfig, Replica, replica_eq}
use bob.Config.Replicas.{found, collect_replica, collect_replicas, collect_vdisks}
use bob.Config.Validated.{IsPlaced, IsValidVdisk}
use bob.Mapper.Build.{prepare_vdisks, vdisk_nodes}

abbrev pub keys {ℓ} : {V : Type ℓ} → List (ℕ × V) → List ℕ
keys [] = []
keys (p ∷ m) = p.0 ∷ keys m

module _ {V : Type 0} where
  -- A new key goes to the end.
  pub insert_new :
      (m : List (ℕ × V)) (k : ℕ) (v : V) → ¬ Member k (keys m) → insert m k v ≡ m ++ (k, v) ∷ []
  unfolding insert
  insert_new [] k v h = refl
  insert_new ((j, w) ∷ m) k v h = elim (Bool-cases (eqb j k)) [
    | inl e ↦ absurd (h (inl (sym (eqb→eq j k e))))
    | inr e ↦ rw e (ap (◌∷◌ (j, w)) (insert_new m k v (λ n. h (inr n))))
  ]

  pub keys-append : (m n : List (ℕ × V)) → keys (m ++ n) ≡ keys m ++ keys n
  keys-append [] n = refl
  keys-append (p ∷ m) n = ap (◌∷◌ p.0) (keys-append m n)

  pub get-Member :
      (P : ℕ → V → Type 0) (m : List (ℕ × V)) (k : ℕ)
      → Member k (keys m)
      → All (λ p. P p.0 p.1) m
      → (v : V) × (get m k ≡ some v) × P k v
  unfolding get
  get-Member P [] k h a = absurd h
  get-Member P ((j, w) ∷ m) k h a = elim (Bool-cases (eqb j k)) [
    | inl e ↦ (w, rw e refl, subst (λ i. P i w) (eqb→eq j k e) a.0)
    | inr e ↦ elim h [
      | inl f ↦ absurd (ground (arith, eqb_refl k))
      | inr n ↦ let (v, g, p) = get-Member P m k n a.1 in (v, rw e g, p)
    ]
  ]

-- Its node is one of the cluster's.
abbrev pub IsLocated : List ClusterNode → NodeDisk → Type 0
IsLocated nodes d = (n : ClusterNode) × Member n nodes × (n.name ≡ d.node_name)

abbrev pub AreLocated : List ClusterNode → List NodeDisk → Type 0
AreLocated nodes ds = (ds ≢ []) × All (IsLocated nodes) ds

found_disk :
    (name : String) (ds : List DiskPath)
    → all (λ x. not (x.name == name)) ds ≡ false
    → (d : DiskPath) × (find? (λ x. x.name == name) ds ≡ some d)
found_disk name [] h = cc
found_disk name (d ∷ ds) h = elim (Bool-cases (d.name == name)) [
  | inl e ↦ (d, rw e refl)
  | inr e ↦ let (x, f) = found_disk name ds (rw e at h) in (x, rw e f)
]

replica_found :
    (nodes : List ClusterNode) (id : ℕ) (r : Replica)
    → IsPlaced nodes r
    → (d : NodeDisk) × (collect_replica nodes id r ≡ found d) × IsLocated nodes d
unfolding collect_replica
replica_found nodes id r (n, e, f) =
    let (x, g) = found_disk r.disk n.disks f in
    let m = find?-some (λ (x : ClusterNode). x.name == r.node) nodes n e in
    (
      record { node_name = n.name; disk_name = r.disk; disk_path = x.path },
      rw (e, g) refl,
      (n, m.0, refl),
    )

replicas_found :
    (nodes : List ClusterNode) (id : ℕ) (rs : List Replica)
    → All (IsPlaced nodes) rs
    → (ds : List NodeDisk) × (collect_replicas nodes id rs ≡ found ds)
      × (length ds ≡ length rs)
      × All (IsLocated nodes) ds
unfolding collect_replicas
replicas_found nodes id [] h = ([], refl, refl, tt)
replicas_found nodes id (r ∷ rs) h =
    let (d, e, l) = replica_found nodes id r h.0 in
    let (ds, f, n, ls) = replicas_found nodes id rs h.1 in
    (d ∷ ds, rw (e, f) refl, ap suc n, (l, ls))

not_empty : {A B : Type 0} (xs : List A) (ys : List B) → length xs ≡ length ys → ys ≢ [] → xs ≢ []
not_empty xs [] e h = absurd (h refl)
not_empty [] (y ∷ ys) e h = absurd (omega arith)
not_empty (x ∷ xs) (y ∷ ys) e h = λ f. cc

-- The keys still to come are not in the map after one more entry.
still_new :
    {V : Type 0} (acc : List (ℕ × V)) (k : ℕ) (v : V) (ks : List ℕ)
    → ¬ Member k ks
    → ((a : ℕ) → Member a (k ∷ ks) → ¬ Member a (keys acc))
    → (a : ℕ) → Member a ks
    → ¬ Member a (keys (acc ++ (k, v) ∷ []))
still_new acc k v ks new d a m n =
    elim (Member-append a (keys acc) (k ∷ [])
      (subst (Member a) (keys-append acc ((k, v) ∷ [])) n)) [
        | inl old ↦ d a (inr m) old
        | inr (inl e) ↦ new (subst (λ t. Member t ks) e m)
        | inr (inr absent) ↦ absent
      ]

-- The map that the loop builds: the ids in order, each with located replicas.
pub vdisks_found :
    (nodes : List ClusterNode) (vs : List VDiskConfig) (acc : List (ℕ × List NodeDisk))
    → All (IsValidVdisk nodes) vs
    → Unique (map (λ v. v.id) vs)
    → ((a : ℕ) → Member a (map (λ v. v.id) vs) → ¬ Member a (keys acc))
    → (located : List (ℕ × List NodeDisk)) × (collect_vdisks nodes vs acc ≡ found (acc ++ located))
      × (keys located ≡ map (λ v. v.id) vs)
      × All (λ p. AreLocated nodes p.1) located
unfolding collect_vdisks
vdisks_found nodes [] acc h u d = ([], ap found (sym (append-nil acc)), refl, tt)
vdisks_found nodes (v ∷ vs) acc h u d =
    let (ds, e, n, ls) = replicas_found nodes v.id v.replicas h.0.placed in
    let (rest, f, ks, l) =
      vdisks_found nodes vs (acc ++ (v.id, ds) ∷ []) h.1 u.1
        (still_new acc v.id ds (map (λ v. v.id) vs) u.0 d) in
    (
      (v.id, ds) ∷ rest,
      rw (e, insert_new acc v.id ds (d v.id (inl refl)), f)
          (ap found (append_assoc acc ((v.id, ds) ∷ []) rest)),
      ap (◌∷◌ v.id) ks,
      ((not_empty ds v.replicas n h.0.has_replicas, ls), l),
    )

abbrev pub entry : List Node → ℕ × List NodeDisk → ℕ × VDisk
entry nodes p = (p.0, record { id = p.0; replicas = p.1; nodes = vdisk_nodes nodes p.1 })

pub prepare_vdisks-map :
    (nodes : List Node) (located : List (ℕ × List NodeDisk)) (acc : List (ℕ × VDisk))
    → Unique (keys located)
    → ((a : ℕ) → Member a (keys located) → ¬ Member a (keys acc))
    → prepare_vdisks nodes located acc ≡ acc ++ map (entry nodes) located
unfolding prepare_vdisks
prepare_vdisks-map nodes [] acc u d = sym (append-nil acc)
prepare_vdisks-map nodes ((id, ds) ∷ rest) acc u d =
    rw
      (
        insert_new acc id (entry nodes (id, ds)).1 (d id (inl refl)),
        prepare_vdisks-map nodes rest (acc ++ entry nodes (id, ds) ∷ []) u.1
            (still_new acc id (entry nodes (id, ds)).1 (keys rest) u.0 d),
      )
      (append_assoc acc (entry nodes (id, ds) ∷ []) (map (entry nodes) rest))
