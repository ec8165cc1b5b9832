-- ===== src/MemBackend/ReadWrite.antt =====
-- A write through the backend and the reads after it, on the storage in memory
-- (bob-backend/src/core.rs, bob-backend/src/mem_backend.rs).
use bob.Prelude.{
  All, Bool, List, Option-cases, String, [], arith, inl, inr, refl, some, true, ℕ, ◌∷◌, ◌≡◌, ◌⊎◌,
}
use bob.Act.{◌>>=◌}
use bob.Options.{BobGetOptions, get_all}
use bob.Error.{key_not_found, Error, ok, err, Result}
use bob.Data.{BobKey, BobData}
use bob.Node.{DiskPath}
use bob.Map.{string_eq, nat_eq, bytes_eq}
use bob.Backend.Storage.{new_alien, new_local}
use bob.MemBackend.{mem_get_alien, MemBackend, disk_get, mem_get, mem_storage, disk_of}
use bob.Backend.{put_single, put_paths, put_at, get_single, get_paths, get_at}
use bob.MemBackend.Readable.{Readable, single_read, single_keeps}

-- The result of `put_paths` after one more path.
kept_result :
    (r result : Result (Unit {0}))
    → let next : Result (Unit {0}) = elim r [ ok u ↦ result | err e ↦ err e ] in
      next ≡ ok tt → result ≡ ok tt
kept_result (ok u) result h = h
kept_result (err e) result h = absurd (cc)

this_result :
    (r result : Result (Unit {0}))
    → let next : Result (Unit {0}) = elim r [ ok u ↦ result | err e ↦ err e ] in
      next ≡ ok tt → r ≡ ok tt
this_result (ok u) result h = refl
this_result (err e) result h = absurd (cc)

module _ (local : String) (key : BobKey) (d : BobData) (vdisk : ℕ) where
  paths_keep :
      (ps : List DiskPath) (q : DiskPath) (result : Result (Unit {0})) (b : MemBackend)
      → Readable local key d vdisk q b
      → Readable local key d vdisk q (put_paths mem_storage local key d vdisk ps result b).1
  unfolding put_paths
  paths_keep [] q result b h = h
  paths_keep (p ∷ ps) q result b h = paths_keep ps q _ _ (single_keeps local key d vdisk p q b h)

  -- The last error stays the result.
  paths_err :
      (ps : List DiskPath) (result : Result (Unit {0})) (b : MemBackend)
      → (put_paths mem_storage local key d vdisk ps result b).0 ≡ ok tt
      → result ≡ ok tt
  unfolding put_paths
  paths_err [] result b h = h
  paths_err (p ∷ ps) result b h =
      kept_result (put_single mem_storage local key d (new_local vdisk p) b).0 result
        (paths_err ps _ _ h)

  paths_read :
      (ps : List DiskPath) (result : Result (Unit {0})) (b : MemBackend)
      → (put_paths mem_storage local key d vdisk ps result b).0 ≡ ok tt
      → All
          (λ q.
            Readable local key d vdisk q (put_paths mem_storage local key d vdisk ps result b).1)
          ps
  unfolding put_paths
  paths_read [] result b h = tt
  paths_read (p ∷ ps) result b h = (
    paths_keep ps p _ _ (
        single_read local key d vdisk p b (
          this_result (put_single mem_storage local key d (new_local vdisk p) b).0 result
            (paths_err ps _ _ h))),
    paths_read ps _ _ h,
  )

  mem_get_pair :
      (p : DiskPath) (r : Result BobData) (b : MemBackend)
      → (mem_get (new_local vdisk p) key b).0 ≡ r
      → mem_get (new_local vdisk p) key b ≡ (r, b)
  unfolding mem_get
  mem_get_pair p r b h = elim (Option-cases (disk_of b (new_local vdisk p))) [
    | inl e ↦ ground (arith, e, h)
    | inr (x, e) ↦ ground (arith, e, h)
  ]

  -- The loop of `get` over the paths finds the data, or fails and the alien storage has it.
  get_paths_read :
      (p : DiskPath) (ps : List DiskPath) (last : Result BobData) (b : MemBackend)
      → All (λ q. Readable local key d vdisk q b) (p ∷ ps)
      → (get_paths mem_storage key vdisk (p ∷ ps) last b ≡ (ok d, b))
        ⊎ (((e : Error) × (get_paths mem_storage key vdisk (p ∷ ps) last b ≡ (err e, b)))
            × (disk_get b.foreign_data vdisk key ≡ ok d))
  unfolding get_paths get_single mem_storage
  get_paths_read p ps last b (inl h, k) = rw (mem_get_pair p (ok d) b h, ◌>>=◌) (inl refl)
  get_paths_read p [] last b (inr ((e, h), f), k) =
      rw (mem_get_pair p (err e) b h, ◌>>=◌) (inr ((e, refl), f))
  get_paths_read p (q ∷ ps) last b (inr ((e, h), f), k) =
      rw (mem_get_pair p (err e) b h, ◌>>=◌) (get_paths_read q ps (err e) b k)

  alien_get :
      (b : MemBackend)
      → disk_get b.foreign_data vdisk key ≡ ok d
      → (get_single mem_storage key (new_alien vdisk) b).0 ≡ ok d
  unfolding get_single mem_storage mem_get_alien
  alien_get b h = h

  -- A put to local disks that replies success is read back: for a request that is not for an alien,
  -- on at least one path, a later `get` from all sources finds the data that was put, also where
  -- disks failed and the data went to the alien storage.
  pub get_at-put_at :
      (force overwrite : Bool) (options : BobGetOptions) (p : DiskPath) (ps : List DiskPath)
      (b : MemBackend)
      → get_all options ≡ true
      → (put_at mem_storage local key d
          (record { force_node = force; overwrite = overwrite; remote_nodes = [] })
          vdisk
          (some (p ∷ ps))
          b).0
        ≡ ok tt
      → (get_at mem_storage key options vdisk
          (some (p ∷ ps))
          (put_at mem_storage local key d
            (record { force_node = force; overwrite = overwrite; remote_nodes = [] })
            vdisk
            (some (p ∷ ps))
            b).1).0
        ≡ ok d
  unfolding put_at get_at
  get_at-put_at force overwrite options p ps b g h =
      let b' = (put_paths mem_storage local key d vdisk (p ∷ ps) (ok tt) b).1 in
      elim (get_paths_read p ps (err (key_not_found key)) b' (paths_read (p ∷ ps) (ok tt) b h)) [
        | inl e ↦ rw (g, e, ◌>>=◌) refl
        | inr ((x, e), f) ↦ rw (g, e, ◌>>=◌) (alien_get b' f)
      ]
