-- ===== src/MemBackend/Readable.antt =====
-- What a put of one path leaves readable on the storage in memory (bob-backend/src/core.rs,
-- bob-backend/src/mem_backend.rs).
use bob.Prelude.{Bool-cases, Option-cases, String, arith, inl, inr, refl, ℕ, ◌∙◌, ◌≡◌, ◌≢◌, ◌⊎◌}
use bob.Error.{Error, ok, err, Result, is_duplicate, internal}
use bob.Data.{BobKey, BobData}
use bob.Node.{DiskPath}
use bob.Map.{string_eq, nat_eq, bytes_eq, beq_refl, get}
use bob.Backend.Storage.{new_local, Operation, set_remote_node_name}
use bob.MemBackend.{
  MemBackend, disk_get, mem_put, mem_get, mem_put_alien, MemDisk, mem_storage, disk_of, disk_put,
}
use bob.Backend.{put_fallback, put_single}
use bob.MemBackend.Laws.{
  mem_get-mem_put, foreign_data-mem_put, mem_get-mem_put_err, disk_get-disk_put, disk_put-err,
}

result_cases : (r : Result (Unit {0})) → (r ≡ ok tt) ⊎ (r ≢ ok tt)
result_cases (ok tt) = inl refl
result_cases (err e) = inr (λ h. cc)

module _ (local : String) (key : BobKey) (d : BobData) (vdisk : ℕ) where
  -- A read of this key on a local disk finds the data, or it fails and the alien storage has it.
  abbrev pub Readable : DiskPath → MemBackend → Type 0
  Readable path b =
      ((mem_get (new_local vdisk path) key b).0 ≡ ok d)
      ⊎ (((e : Error) × ((mem_get (new_local vdisk path) key b).0 ≡ err e))
          × (disk_get b.foreign_data vdisk key ≡ ok d))

  put_ok :
      (p q : DiskPath) (b : MemBackend)
      → (mem_put (new_local vdisk p) key d b).0 ≡ ok tt
      → Readable q b
      → Readable q (mem_put (new_local vdisk p) key d b).1
  put_ok p q b h r = ground (
    arith,
    mem_get-mem_put b vdisk p key d vdisk q key h,
    foreign_data-mem_put b vdisk p key d,
    r,
  )

  put_err :
      (p q : DiskPath) (b : MemBackend)
      → (mem_put (new_local vdisk p) key d b).0 ≢ ok tt
      → Readable q b
      → Readable q (mem_put (new_local vdisk p) key d b).1
  put_err p q b h r = ground (
    arith,
    mem_get-mem_put_err b vdisk p key d vdisk q key h,
    foreign_data-mem_put b vdisk p key d,
    r,
  )

  alien_read :
      (op : Operation) (b : MemBackend)
      → op.vdisk_id ≡ vdisk
      → (mem_put_alien op key d b).0 ≡ ok tt
      → disk_get (mem_put_alien op key d b).1.foreign_data vdisk key ≡ ok d
  unfolding mem_put_alien
  alien_read op b e h = ground (
    arith,
    e,
    h,
    disk_get-disk_put b.foreign_data op.vdisk_id key d vdisk key,
    beq_refl key,
    beq_refl vdisk,
  )

  foreign_keeps :
      (disk : MemDisk)
      → disk_get disk vdisk key ≡ ok d
      → disk_get (disk_put disk vdisk key d).1 vdisk key ≡ ok d
  foreign_keeps disk h = elim (result_cases (disk_put disk vdisk key d).0) [
    | inl e ↦ ground (arith, disk_get-disk_put disk vdisk key d vdisk key e, h)
    | inr e ↦ rw (disk_put-err disk vdisk key d e) h
  ]

  mem_get_local :
      (q : DiskPath) (op : Operation) (b : MemBackend)
      → (mem_get (new_local vdisk q) key (mem_put_alien op key d b).1).0
        ≡ (mem_get (new_local vdisk q) key b).0
  unfolding mem_put_alien disk_of mem_get
  mem_get_local q op b = elim (Option-cases (get b.disks q.name)) [
    | inl e ↦ rw (e, mem_get) refl
    | inr (disk, e) ↦ rw (e, mem_get) refl
  ]

  alien_keeps :
      (op : Operation) (q : DiskPath) (b : MemBackend)
      → op.vdisk_id ≡ vdisk
      → Readable q b
      → Readable q (mem_put_alien op key d b).1
  unfolding mem_put_alien
  alien_keeps op q b e (inl h) = inl (mem_get_local q op b ∙ h)
  alien_keeps op q b e (inr ((e', h), f)) =
      inr ((e', mem_get_local q op b ∙ h), rw e (foreign_keeps b.foreign_data f))

  fallback_keeps :
      (p q : DiskPath) (r : Result (Unit {0})) (b : MemBackend)
      → Readable q b
      → Readable q (put_fallback mem_storage local key d (new_local vdisk p) r b).1
  unfolding put_fallback mem_storage
  fallback_keeps p q (ok u) b h = h
  fallback_keeps p q (err e) b h = elim (Bool-cases (is_duplicate e)) [
    | inl f ↦ rw (f, put_fallback) h
    | inr f ↦
        rw (f, put_fallback)
          (alien_keeps (set_remote_node_name (new_local vdisk p) local) q b refl h)
  ]

  -- Where the disk takes no data of the vdisk, it has none of it either.
  mem_put_err :
      (p : DiskPath) (b : MemBackend)
      → (mem_put (new_local vdisk p) key d b).0 ≢ ok tt
      → (mem_get (new_local vdisk p) key b).0 ≡ err internal
  unfolding mem_put mem_get disk_of disk_put disk_get
  mem_put_err p b h = elim (Option-cases (get b.disks p.name)) [
    | inl e ↦ rw (e, mem_get) refl
    | inr (disk, e) ↦ elim (Option-cases (get disk vdisk)) [
      | inl f ↦ ground (arith, e, f)
      | inr (v, f) ↦ absurd (h (ground (arith, e, f)))
    ]
  ]

  fallback_read :
      (p : DiskPath) (e : Error) (b : MemBackend)
      → (mem_get (new_local vdisk p) key b).0 ≡ err internal
      → (put_fallback mem_storage local key d (new_local vdisk p) (err e) b).0 ≡ ok tt
      → Readable p (put_fallback mem_storage local key d (new_local vdisk p) (err e) b).1
  unfolding put_fallback mem_storage
  fallback_read p e b n h = elim (Bool-cases (is_duplicate e)) [
    | inl f ↦ absurd (ground (arith, h, f))
    | inr f ↦
        let op = set_remote_node_name (new_local vdisk p) local in
        let g : (mem_put_alien op key d b).0 ≡ ok tt = ground (arith, h, f) in
        let r : Readable p (mem_put_alien op key d b).1 =
          inr ((internal, mem_get_local p op b ∙ n), alien_read op b refl g) in
        rw (f, put_fallback) r
  ]

  fallback_any :
      (p : DiskPath) (r : Result (Unit {0})) (b : MemBackend)
      → (r ≡ ok tt → (mem_get (new_local vdisk p) key b).0 ≡ ok d)
      → (r ≢ ok tt → (mem_get (new_local vdisk p) key b).0 ≡ err internal)
      → (put_fallback mem_storage local key d (new_local vdisk p) r b).0 ≡ ok tt
      → Readable p (put_fallback mem_storage local key d (new_local vdisk p) r b).1
  unfolding put_fallback
  fallback_any p (ok tt) b h k e = inl (h refl)
  fallback_any p (err x) b h k e = fallback_read p x b (k (λ q. cc)) e

  put_get :
      (p : DiskPath) (b : MemBackend)
      → (mem_put (new_local vdisk p) key d b).0 ≡ ok tt
      → (mem_get (new_local vdisk p) key (mem_put (new_local vdisk p) key d b).1).0 ≡ ok d
  put_get p b h = ground (
    arith,
    mem_get-mem_put b vdisk p key d vdisk p key h,
    beq_refl key,
    beq_refl vdisk,
    beq_refl p.name,
  )

  -- One path of `put_paths`.
  pub single_read :
      (p : DiskPath) (b : MemBackend)
      → (put_single mem_storage local key d (new_local vdisk p) b).0 ≡ ok tt
      → Readable p (put_single mem_storage local key d (new_local vdisk p) b).1
  unfolding put_single mem_storage
  single_read p b h =
      fallback_any p (mem_put (new_local vdisk p) key d b).0 _ (put_get p b)
        (λ n. mem_get-mem_put_err b vdisk p key d vdisk p key n ∙ mem_put_err p b n) h

  pub single_keeps :
      (p q : DiskPath) (b : MemBackend)
      → Readable q b
      → Readable q (put_single mem_storage local key d (new_local vdisk p) b).1
  unfolding put_single mem_storage
  single_keeps p q b h =
      fallback_keeps p q (mem_put (new_local vdisk p) key d b).0 _
        (elim (result_cases (mem_put (new_local vdisk p) key d b).0) [
          | inl e ↦ put_ok p q b e h
          | inr e ↦ put_err p q b e h
        ])
