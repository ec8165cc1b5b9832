-- ===== src/Cluster/Get/Sources.antt =====
-- What a reply of `get` says of the sources that it may ask (bob/src/cluster/quorum.rs).
use bob.Prelude.{
  List, Member, Option, Option-cases, String, [], filter, inl, inr, none, not, refl, some, ◌==◌,
  ◌∷◌, ◌≡◌, ◌⊎◌,
}
use bob.Error.{Result, ok, err}
use bob.Data.{BobKey, BobData}
use bob.Node.{Node, DiskPath, VDisk}
use bob.Options.{get_local_options, get_alien_options}
use bob.Backend.Storage.{new_local, new_alien}
use bob.Mapper.{
  Virtual, get_operation, get_target_nodes_for_key, get_vdisk_for_key, local_disk_paths,
}
use bob.Cluster.Get.{
  Answers, to_option, or_else, find_map, get_any, lookup_remote_nodes, lookup_remote_aliens,
  lookup_local_alien, lookup_local_node, lookups, or_not_found, get_routed, get,
}

-- A disk of this node, another target node, the aliens of this node, the aliens of another node.
pub data Source : Type 0 where
  local_disk : DiskPath → Source
  target_node : Node → Source
  local_alien : Source
  remote_alien : Node → Source

abbrev paths_or_none : Option (List DiskPath) → List DiskPath
paths_or_none none = []
paths_or_none (some paths) = paths

abbrev others : String → List Node → List Node
others local = filter (λ n. not (n.name == local))

-- The sources for a key of the vdisk.
abbrev pub IsSource : Virtual → VDisk → Source → Type 0
IsSource m v (local_disk p) =
    Member p (paths_or_none (local_disk_paths m.local_node_name v.replicas none))
IsSource m v (target_node n) = Member n (others m.local_node_name v.nodes)
IsSource m v local_alien = Unit
IsSource m v (remote_alien n) = Member n (others m.local_node_name m.nodes)

abbrev pub answer : Answers → VDisk → Source → Result BobData
answer a v (local_disk p) = a.on_local (new_local v.id p)
answer a v (target_node n) = a.on_remote n get_local_options
answer a v local_alien = a.on_local (new_alien v.id)
answer a v (remote_alien n) = a.on_remote n get_alien_options

find_map-finds :
    {A : Type 0} (f : A → Option BobData) (xs : List A) (x : A) (d : BobData)
    → Member x xs
    → f x ≡ some d
    → (d' : BobData) × (find_map f xs ≡ some d')
unfolding find_map
find_map-finds f [] x d m e = absurd m
find_map-finds f (y ∷ ys) x d m e = elim (Option-cases (f y)) [
  | inr (c, g) ↦ (c, rw g refl)
  | inl g ↦ elim m [
    | inl h ↦ absurd (cc (h, g, e))
    | inr k ↦ let (c, i) = find_map-finds f ys x d k e in (c, rw g i)
  ]
]

or_else_left : (a b : Option BobData) (d : BobData) → a ≡ some d → or_else a b ≡ some d
or_else_left none b d e = absurd (cc)
or_else_left (some c) b d e = e

or_else-some :
    (a b : Option BobData) (d : BobData) → b ≡ some d → (c : BobData) × (or_else a b ≡ some c)
or_else-some none b d e = (d, e)
or_else-some (some c) b d e = (c, refl)

or_else_from :
    (a b : Option BobData) (d : BobData) → or_else a b ≡ some d → (a ≡ some d) ⊎ (b ≡ some d)
or_else_from none b d e = inr e
or_else_from (some c) b d e = inl e

find_map_sound :
    {A : Type 0} (f : A → Option BobData) (xs : List A) (d : BobData)
    → find_map f xs ≡ some d
    → (x : A) × Member x xs × (f x ≡ some d)
unfolding find_map
find_map_sound f [] d e = absurd (cc)
find_map_sound f (y ∷ ys) d e = elim (or_else_from (f y) (find_map f ys) d e) [
  | inl h ↦ (y, inl refl, h)
  | inr h ↦ let (x, m, i) = find_map_sound f ys d h in (x, inr m, i)
]

to_option-ok : (r : Result BobData) (d : BobData) → to_option r ≡ some d → r ≡ ok d
to_option-ok (ok c) d e = cc
to_option-ok (err x) d e = absurd (cc)

ok-to_option : (r : Result BobData) (d : BobData) → r ≡ ok d → to_option r ≡ some d
ok-to_option r d e = rw e refl

module _ (a : Answers) (m : Virtual) (v : VDisk) where
  abbrev paths : List DiskPath
  paths = paths_or_none (local_disk_paths m.local_node_name v.replicas none)

  abbrev on_disk : DiskPath → Option BobData
  on_disk p = to_option (a.on_local (new_local v.id p))

  abbrev on_target : Node → Option BobData
  on_target n = to_option (a.on_remote n get_local_options)

  abbrev on_other : Node → Option BobData
  on_other n = to_option (a.on_remote n get_alien_options)

  -- The lookups on this node, on the targets, in the aliens here, and in the aliens elsewhere.
  abbrev here : Option BobData
  here = find_map on_disk paths

  abbrev targets : Option BobData
  targets = find_map on_target (a.completion (others m.local_node_name v.nodes))

  abbrev aliens : Option BobData
  aliens = to_option (a.on_local (new_alien v.id))

  abbrev elsewhere : Option BobData
  elsewhere = find_map on_other (a.completion (others m.local_node_name m.nodes))

  pub lookups-lem :
      lookups a m v.id paths v.nodes ≡ or_else here (or_else targets (or_else aliens elsewhere))
  unfolding lookups lookup_local_node lookup_remote_nodes lookup_remote_aliens lookup_local_alien
      get_any
  lookups-lem = refl

  pub chain-finds :
      (s : Source) (d : BobData)
      → ((nodes : List Node) (n : Node) → Member n nodes → Member n (a.completion nodes))
      → IsSource m v s
      → answer a v s ≡ ok d
      → (c : BobData) × (or_else here (or_else targets (or_else aliens elsewhere)) ≡ some c)
  chain-finds (local_disk p) d k i e =
      let (c, f) = find_map-finds on_disk paths p d i (ok-to_option _ d e) in
      (c, or_else_left here _ c f)
  chain-finds (target_node n) d k i e =
      let (c, f) = find_map-finds on_target _ n d (k _ n i) (ok-to_option _ d e) in
      or_else-some here (or_else targets (or_else aliens elsewhere)) c (or_else_left targets _ c f)
  chain-finds local_alien d k i e =
      let (c, f) =
        or_else-some targets (or_else aliens elsewhere) d
          (or_else_left aliens elsewhere d (ok-to_option _ d e)) in
      or_else-some here (or_else targets (or_else aliens elsewhere)) c f
  chain-finds (remote_alien n) d k i e =
      let (b, f) = find_map-finds on_other _ n d (k _ n i) (ok-to_option _ d e) in
      let (c, g) = or_else-some aliens elsewhere b f in
      let (c', h) = or_else-some targets (or_else aliens elsewhere) c g in
      or_else-some here (or_else targets (or_else aliens elsewhere)) c' h

  pub chain_sound :
      (d : BobData)
      → ((nodes : List Node) (n : Node) → Member n (a.completion nodes) → Member n nodes)
      → or_else here (or_else targets (or_else aliens elsewhere)) ≡ some d
      → (s : Source) × IsSource m v s × (answer a v s ≡ ok d)
  chain_sound d k e = elim (or_else_from here (or_else targets (or_else aliens elsewhere)) d e) [
    | inl f ↦
        let (p, i, g) = find_map_sound on_disk paths d f in (local_disk p, i, to_option-ok _ d g)
    | inr f ↦ elim (or_else_from targets (or_else aliens elsewhere) d f) [
      | inl g ↦
          let (n, i, h) = find_map_sound on_target _ d g in
          (target_node n, k _ n i, to_option-ok _ d h)
      | inr g ↦ elim (or_else_from aliens elsewhere d g) [
        | inl h ↦ (local_alien, tt, to_option-ok _ d h)
        | inr h ↦
            let (n, i, j) = find_map_sound on_other _ d h in
            (remote_alien n, k _ n i, to_option-ok _ d j)
      ]
    ]
  ]

  -- `get` for a key that the mapper routes to this vdisk.
  pub get-routed :
      (key : BobKey)
      → get_vdisk_for_key m key ≡ some v
      → get a m key ≡ some (or_not_found a key (lookups a m v.id paths v.nodes))
  unfolding get get_routed get_operation get_target_nodes_for_key
  get-routed key e = elim (Option-cases (local_disk_paths m.local_node_name v.replicas none)) [
    | inl f ↦ rw (e, f, get_routed) refl
    | inr (ps, f) ↦ rw (e, f, get_routed) refl
  ]
