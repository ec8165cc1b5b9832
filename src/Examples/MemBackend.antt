-- ===== src/Examples/MemBackend.antt =====
-- A storage in memory with one vdisk on one of two disks.
use bob.Prelude.{[], false, refl, some, true, ◌∷◌, ◌≡◌}
use bob.Error.{is_duplicate, ok}
use bob.Data.{BobData}
use bob.Node.{DiskPath}
use bob.Options.{put_local_options, get_all_options}
use bob.Map.{get, bytes_eq}
use bob.Backend.Storage.{new_local}
use bob.Backend.{put_at, get_at}
use bob.MemBackend.{MemBackend, mem_put, mem_get, mem_put_alien, mem_storage, disk_put, disk_of}
use bob.MemBackend.Laws.{mem_get-mem_put, mem_get-mem_put_err}
use bob.MemBackend.ReadWrite.{get_at-put_at}

abbrev storage : MemBackend
storage = record { disks = ("disk1", (0, []) ∷ []) ∷ []; foreign_data = (0, []) ∷ [] }

abbrev disk1 : DiskPath
disk1 = record { name = "disk1"; path = "/tmp/d1" }

-- No such disk in the storage.
abbrev lost : DiskPath
lost = record { name = "disk2"; path = "/tmp/d2" }

abbrev data1 : BobData
data1 = record { inner = 9 ∷ []; meta = record { timestamp = 1 } }

mem_get-mem_put_example :
    (mem_get (new_local 0 disk1) (1 ∷ []) (mem_put (new_local 0 disk1) (1 ∷ []) data1 storage).1).0
    ≡ ok data1
unfolding mem_put disk_put disk_of get
mem_get-mem_put_example = mem_get-mem_put storage 0 disk1 (1 ∷ []) data1 0 disk1 (1 ∷ []) refl

mem_get-mem_put_err_example :
    (mem_get (new_local 0 disk1) (1 ∷ []) (mem_put (new_local 7 disk1) (1 ∷ []) data1 storage).1).0
    ≡ (mem_get (new_local 0 disk1) (1 ∷ []) storage).0
unfolding mem_put disk_put disk_of get
mem_get-mem_put_err_example =
    mem_get-mem_put_err storage 7 disk1 (1 ∷ []) data1 0 disk1 (1 ∷ []) (λ e. cc)

-- The lost disk comes first: its copy goes to the alien storage.
get_at-put_at_example :
    (get_at mem_storage
      (1 ∷ [])
      get_all_options
      0
      (some (lost ∷ disk1 ∷ []))
      (put_at mem_storage "n0"
        (1 ∷ [])
        data1
        put_local_options
        0
        (some (lost ∷ disk1 ∷ []))
        storage).1).0
    ≡ ok data1
unfolding put_at mem_storage mem_put mem_put_alien disk_put disk_of get is_duplicate
get_at-put_at_example =
    get_at-put_at "n0" (1 ∷ []) data1 0 true false get_all_options lost (disk1 ∷ []) storage refl
      refl
