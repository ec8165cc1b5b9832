-- ===== src/MemBackend.antt =====
-- bob-backend/src/mem_backend.rs: the storage in memory. The locks are not modelled: each method
-- holds its lock for one access to one map.
pub mod Answers
pub mod Laws
pub mod Readable
pub mod ReadWrite
use bob.Prelude.{
  Bool, List, Option, String, [], false, length, map, none, some, suc, true, zero, ℕ, ◌+◌, ◌∷◌,
}
use mathlib.Core.Option
use bob.Error.{Result, ok, err, internal, key_not_found}
use bob.Data.{BobKey, BobData, BobMeta}
use bob.Node.{DiskPath}
use bob.Map.{get, insert, remove, nat_eq, string_eq, bytes_eq}
use bob.Mapper.{Virtual, get_vdisks_by_disk}
use bob.Act.{Act}
use bob.Backend.Storage.{Operation, BackendStorage}

abbrev pub VDisk : Type 0
VDisk = List (BobKey × BobData)

-- A disk's name is its key in the map of disks, or "foreign".
abbrev pub MemDisk : Type 0
MemDisk = List (ℕ × VDisk)

pub record MemBackend : Type 0 where
  pub disks : List (String × MemDisk)
  pub foreign_data : MemDisk

-- `VDisk::put`, `get`, `exist`, `delete`.
unfoldable pub vdisk_get : VDisk → BobKey → Result BobData
vdisk_get v key = elim (get v key) [ some d ↦ ok d | none ↦ err (key_not_found key) ]

unfoldable pub vdisk_exist : VDisk → List BobKey → List Bool
vdisk_exist v keys = map (λ k. elim (get v k) [ some d ↦ true | none ↦ false ]) keys

-- The same on a disk: an unknown vdisk is an internal error.
unfoldable pub disk_get : MemDisk → ℕ → BobKey → Result BobData
unfolding vdisk_get
disk_get disk id key = elim (get disk id) [ some v ↦ vdisk_get v key | none ↦ err internal ]

unfoldable pub disk_put : MemDisk → ℕ → BobKey → BobData → Result (Unit {0}) × MemDisk
disk_put disk id key d = elim (get disk id) [
  | some v ↦ (ok tt, insert disk id (insert v key d))
  | none ↦ (err internal, disk)
]

unfoldable pub disk_exist : MemDisk → ℕ → List BobKey → Result (List Bool)
unfolding vdisk_exist
disk_exist disk id keys = elim (get disk id) [
  | some v ↦ ok (vdisk_exist v keys)
  | none ↦ err internal
]

unfoldable pub disk_delete : MemDisk → ℕ → BobKey → Result ℕ × MemDisk
disk_delete disk id key = elim (get disk id) [
  | none ↦ (err internal, disk)
  | some v ↦ elim (get v key) [
    | some d ↦ (ok 1, insert disk id (remove v key))
    | none ↦ (err (key_not_found key), disk)
  ]
]

-- The disk of a local operation; `disk_name_local` panics without a path, which no caller lets happen.
unfoldable pub disk_of : MemBackend → Operation → Option (String × MemDisk)
disk_of b op = elim op.disk_path [
  | none ↦ none
  | some p ↦ Option.map (λ disk. (p.name, disk)) (get b.disks p.name)
]

unfoldable pub mem_put : Operation → BobKey → BobData → Act MemBackend (Result (Unit {0}))
unfolding disk_of disk_put
mem_put op key d b = elim (disk_of b op) [
  | none ↦ (err internal, b)
  | some (name, disk) ↦
      let (r, disk') = disk_put disk op.vdisk_id key d in
      (r, record b { disks = insert b.disks name disk' })
]

unfoldable pub mem_put_alien : Operation → BobKey → BobData → Act MemBackend (Result (Unit {0}))
unfolding disk_put
mem_put_alien op key d b =
    let (r, disk') = disk_put b.foreign_data op.vdisk_id key d in
    (r, record b { foreign_data = disk' })

unfoldable pub mem_get : Operation → BobKey → Act MemBackend (Result BobData)
unfolding disk_of disk_get
mem_get op key b = elim (disk_of b op) [
  | none ↦ (err internal, b)
  | some (name, disk) ↦ (disk_get disk op.vdisk_id key, b)
]

unfoldable pub mem_get_alien : Operation → BobKey → Act MemBackend (Result BobData)
unfolding disk_get
mem_get_alien op key b = (disk_get b.foreign_data op.vdisk_id key, b)

unfoldable pub mem_exist : Operation → List BobKey → Act MemBackend (Result (List Bool))
unfolding disk_of disk_exist
mem_exist op keys b = elim (disk_of b op) [
  | none ↦ (err internal, b)
  | some (name, disk) ↦ (disk_exist disk op.vdisk_id keys, b)
]

unfoldable pub mem_exist_alien : Operation → List BobKey → Act MemBackend (Result (List Bool))
unfolding disk_exist
mem_exist_alien op keys b = (disk_exist b.foreign_data op.vdisk_id keys, b)

unfoldable pub mem_delete : Operation → BobKey → BobMeta → Act MemBackend (Result ℕ)
unfolding disk_of disk_delete
mem_delete op key meta b = elim (disk_of b op) [
  | none ↦ (err internal, b)
  | some (name, disk) ↦
      let (r, disk') = disk_delete disk op.vdisk_id key in
      (r, record b { disks = insert b.disks name disk' })
]

unfoldable pub mem_delete_alien : Operation → BobKey → BobMeta → Bool → Act MemBackend (Result ℕ)
unfolding disk_delete
mem_delete_alien op key meta force b =
    let (r, disk') = disk_delete b.foreign_data op.vdisk_id key in
    (r, record b { foreign_data = disk' })

unfoldable pub mem_storage : BackendStorage MemBackend
mem_storage = record {
  put = mem_put;
  put_alien = mem_put_alien;
  get = mem_get;
  get_alien = mem_get_alien;
  exist = mem_exist;
  exist_alien = mem_exist_alien;
  delete = mem_delete;
  delete_alien = mem_delete_alien;
}

-- `MemDisk::new`: an empty vdisk for each id that the mapper has on the disk.
unfoldable pub empty_vdisks : List ℕ → MemDisk
empty_vdisks [] = []
empty_vdisks (id ∷ ids) = insert (empty_vdisks ids) id []

-- `MemDisk::new_direct`: the ids below the count.
unfoldable pub ids_from : ℕ → ℕ → List ℕ
ids_from i Prim.Native.Nat.zero = []
ids_from i (Prim.Native.Nat.suc n) = i ∷ ids_from (i + 1) n

unfoldable pub new_disks : Virtual → List DiskPath → List (String × MemDisk)
unfolding empty_vdisks
new_disks m [] = []
new_disks m (d ∷ ds) = insert (new_disks m ds) d.name (empty_vdisks (get_vdisks_by_disk m d.name))

unfoldable pub mem_new : Virtual → MemBackend
unfolding new_disks empty_vdisks ids_from
mem_new m = record {
  disks = new_disks m m.disks;
  foreign_data = empty_vdisks (ids_from 0 (length m.vdisks));
}
