-- ===== src/Examples/Exist.antt =====
-- A storage in memory with two keys, of which one lies on the disk and the other among the aliens.
use bob.Prelude.{List, [], map, ◌∷◌, ◌≡◌}
use bob.Error.{ok}
use bob.Data.{BobKey, BobData}
use bob.Node.{DiskPath}
use bob.Backend.Storage.{Operation, new_local, new_alien}
use bob.Backend.Exist.{exist_by}
use bob.Backend.Exist.Grouping.{found_in, exist_by-lem}
use bob.MemBackend.{MemBackend, mem_storage}
use bob.MemBackend.Answers.{mem_present, ask-mem_present}

abbrev disk1 : DiskPath
disk1 = record { name = "disk1"; path = "/tmp/d1" }

abbrev stored : BobData
stored = record { inner = 9 ∷ []; meta = record { timestamp = 1 } }

-- One key on the disk of vdisk 0, another among its aliens; vdisk 1 is refused.
abbrev storage : MemBackend
storage = record {
  disks = ("disk1", (0, (1 ∷ [], stored) ∷ []) ∷ []) ∷ [];
  foreign_data = (0, (2 ∷ [], stored) ∷ []) ∷ [];
}

abbrev both : BobKey → List Operation
both key = new_local 0 disk1 ∷ new_alien 0 ∷ new_local 1 disk1 ∷ []

exist_by-lem_example :
    (exist_by mem_storage both ((2 ∷ []) ∷ (3 ∷ []) ∷ (1 ∷ []) ∷ []) storage).0
    ≡ ok (
        map
          (λ key. found_in (mem_present storage) (both key) key)
          ((2 ∷ []) ∷ (3 ∷ []) ∷ (1 ∷ []) ∷ []))
exist_by-lem_example =
    exist_by-lem (mem_present storage) mem_storage storage (ask-mem_present storage) both
      ((2 ∷ []) ∷ (3 ∷ []) ∷ (1 ∷ []) ∷ [])
