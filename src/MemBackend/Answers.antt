-- ===== src/MemBackend/Answers.antt =====
-- What the storage in memory (bob-backend/src/mem_backend.rs) answers to a question for several
-- keys: each key by itself, in the state that it is in.
use bob.Prelude.{
  Bool, Bool-cases, List, Option, Option-cases, String, ap, if◌then◌else◌, inl, inr, is_some, none,
  refl, some, ℕ, ◌≡◌,
}
use bob.Error.{Result, ok, err, internal}
use bob.Data.{BobKey}
use bob.Map.{get, nat_eq, bytes_eq}
use bob.Backend.Storage.{Operation, is_data_alien}
use bob.Backend.Exist.{ask}
use bob.Backend.Exist.Grouping.{reply_of}
use bob.MemBackend.{
  MemBackend, MemDisk, vdisk_exist, disk_exist, disk_of, mem_exist, mem_exist_alien, mem_storage,
}

unfoldable pub disk_present : MemDisk → ℕ → Result (BobKey → Bool)
disk_present disk id = elim (get disk id) [
  | some v ↦ ok (λ key. is_some (get v key))
  | none ↦ err internal
]

unfoldable pub local_present : ℕ → Option (String × MemDisk) → Result (BobKey → Bool)
local_present id none = err internal
local_present id (some (name, disk)) = disk_present disk id

unfoldable pub mem_present : MemBackend → Operation → Result (BobKey → Bool)
mem_present b op =
    if is_data_alien op
    then disk_present b.foreign_data op.vdisk_id
    else local_present op.vdisk_id (disk_of b op)

disk_exist-present :
    (disk : MemDisk) (id : ℕ) (keys : List BobKey)
    → disk_exist disk id keys ≡ reply_of (disk_present disk id) keys
unfolding disk_exist disk_present vdisk_exist
disk_exist-present disk id keys = elim (Option-cases (get disk id)) [
  | inl e ↦ rw (disk_exist, disk_present, e) refl
  | inr (v, e) ↦ rw (disk_exist, disk_present, e) refl
]

pub ask-mem_present :
    (b : MemBackend) (op : Operation) (keys : List BobKey)
    → ask mem_storage op keys b ≡ (reply_of (mem_present b op) keys, b)
unfolding ask mem_storage mem_exist mem_exist_alien mem_present local_present
ask-mem_present b op keys = elim (Bool-cases (is_data_alien op)) [
  | inl t ↦
      rw (ask, mem_present, t)
        (ap (λ r. (r, b)) (disk_exist-present b.foreign_data op.vdisk_id keys))
  | inr f ↦
      rw (ask, mem_present, f)
        (elim (Option-cases (disk_of b op)) [
          | inl e ↦ rw (e, mem_exist) refl
          | inr ((name, disk), e) ↦
              rw (e, mem_exist) (ap (λ r. (r, b)) (disk_exist-present disk op.vdisk_id keys))
        ])
]
