-- ===== src/MemBackend/Laws.antt =====
-- What a put to the storage in memory changes (bob-backend/src/mem_backend.rs).
use bob.Prelude.{
  Bool, Option-cases, arith, eq_iff, eqb, eqb→eq, if◌then◌else◌, inl, inr, refl, ℕ, ◌&&◌, ◌==◌, ◌≡◌,
  ◌≢◌,
}
use bob.Error.{ok}
use bob.Data.{BobKey, BobData}
use bob.Map.{get, insert, nat_eq, string_eq, bytes_eq, get-insert}
use bob.Backend.Storage.{new_local}
use bob.MemBackend.{
  MemDisk, MemBackend, vdisk_get, disk_get, disk_put, disk_of, mem_put, mem_get, DiskPath,
}

abbrev same_key : BobKey → BobKey → Bool
same_key a b = bytes_eq.beq a b

-- On one disk, where the put succeeds.
pub disk_get-disk_put :
    (disk : MemDisk) (id : ℕ) (key : BobKey) (d : BobData) (id' : ℕ) (key' : BobKey)
    → (disk_put disk id key d).0 ≡ ok tt
    → disk_get (disk_put disk id key d).1 id' key'
      ≡ (if eqb id id' && same_key key key' then ok d else disk_get disk id' key')
unfolding disk_get disk_put vdisk_get
disk_get-disk_put disk id key d id' key' h = elim (Option-cases (get disk id)) [
  | inl e ↦ absurd (cc (h, e))
  | inr (v, e) ↦
      ground
        (arith, e, get-insert disk id id' (insert v key d), get-insert v key key' d, eqb→eq id id')
]

pub disk_put-err :
    (disk : MemDisk) (id : ℕ) (key : BobKey) (d : BobData)
    → (disk_put disk id key d).0 ≢ ok tt
    → (disk_put disk id key d).1 ≡ disk
unfolding disk_put
disk_put-err disk id key d h = elim (Option-cases (get disk id)) [
  | inl e ↦ rw (e, disk_put) refl
  | inr (v, e) ↦ absurd (h (rw (e, disk_put) refl))
]

-- Where a put to a local disk succeeds, a later read of any key of any vdisk on any local disk
-- finds the data if all three are the same, and what it found before otherwise. (Disks with the
-- same name are one.)
pub mem_get-mem_put :
    (b : MemBackend) (id : ℕ) (p : DiskPath) (key : BobKey) (d : BobData) (id' : ℕ) (q : DiskPath)
    (key' : BobKey)
    → (mem_put (new_local id p) key d b).0 ≡ ok tt
    → (mem_get (new_local id' q) key' (mem_put (new_local id p) key d b).1).0 ≡ (
        if (p.name == q.name) && eqb id id' && bytes_eq.beq key key'
        then ok d
        else (mem_get (new_local id' q) key' b).0)
unfolding mem_put mem_get disk_of
mem_get-mem_put b id p key d id' q key' h = elim (Option-cases (get b.disks p.name)) [
  | inl e ↦ absurd (cc (h, e))
  | inr (disk, e) ↦ ground (
    arith,
    e,
    get-insert b.disks p.name q.name (disk_put disk id key d).1,
    disk_get-disk_put disk id key d id' key',
    eq_iff p.name q.name,
  )
]

-- Where it fails, every read finds what it found before.
pub mem_get-mem_put_err :
    (b : MemBackend) (id : ℕ) (p : DiskPath) (key : BobKey) (d : BobData) (id' : ℕ) (q : DiskPath)
    (key' : BobKey)
    → (mem_put (new_local id p) key d b).0 ≢ ok tt
    → (mem_get (new_local id' q) key' (mem_put (new_local id p) key d b).1).0
      ≡ (mem_get (new_local id' q) key' b).0
unfolding mem_put mem_get disk_of
mem_get-mem_put_err b id p key d id' q key' h = elim (Option-cases (get b.disks p.name)) [
  | inl e ↦ rw (e, mem_put) refl
  | inr (disk, e) ↦ ground (
    arith,
    e,
    get-insert b.disks p.name q.name (disk_put disk id key d).1,
    disk_put-err disk id key d,
    eq_iff p.name q.name,
  )
]

pub foreign_data-mem_put :
    (b : MemBackend) (id : ℕ) (p : DiskPath) (key : BobKey) (d : BobData)
    → (mem_put (new_local id p) key d b).1.foreign_data ≡ b.foreign_data
unfolding mem_put
foreign_data-mem_put b id p key d = elim (Option-cases (disk_of b (new_local id p))) [
  | inl e ↦ rw (e, mem_put) refl
  | inr (x, e) ↦ rw (e, mem_put) refl
]
