-- ===== src/Data/Laws.antt =====
-- Data and numeric keys read back (bob-common/src/data.rs).
use mathlib.Core.List.{reverse-reverse}
use bob.Prelude.{Option, ap, arith, length, le→leb, some, ℕ, ◌<◌, ◌^◌, ◌∙◌, ◌≡◌, ◌≤◌}
use bob.Data.{BobData, from_u64, to_serialized_bytes, from_serialized_bytes}
use bob.Data.Bytes.{
  to_le_bytes, to_be_bytes, from_be_bytes, le_value, le_value-to_le_bytes, le_value-overlay,
  length-to_le_bytes,
}

from_be_bytes-to_be_bytes : (t : ℕ) → t < 2 ^ 64 → from_be_bytes (to_be_bytes 8 t) ≡ t
unfolding from_be_bytes to_be_bytes
from_be_bytes-to_be_bytes t h =
    ap le_value (reverse-reverse (to_le_bytes 8 t)) ∙ le_value-to_le_bytes 8 t (omega arith)

-- Data whose timestamp fits 64 bits comes back whole, content and timestamp, from the bytes that
-- it is serialized to.
pub from_serialized_bytes-to_serialized_bytes :
    (d : BobData)
    → d.meta.timestamp < 2 ^ 64
    → from_serialized_bytes (to_serialized_bytes d) ≡ some d
unfolding from_serialized_bytes to_serialized_bytes to_be_bytes to_le_bytes
from_serialized_bytes-to_serialized_bytes d h =
    rw (le→leb 8 (length (to_serialized_bytes d)) (omega arith)) (
      ap {B = Option BobData}
        (λ v. some (record { inner = d.inner; meta = record { timestamp = v } }))
        (from_be_bytes-to_be_bytes d.meta.timestamp h))

-- A key of at least eight bytes made from a 64-bit number stands for that number.
pub le_value-from_u64 : (size n : ℕ) → 8 ≤ size → n < 2 ^ 64 → le_value (from_u64 size n) ≡ n
unfolding from_u64
le_value-from_u64 size n h k =
    le_value-overlay size (to_le_bytes 8 n) (rw length-to_le_bytes h)
    ∙ le_value-to_le_bytes 8 n (omega arith)
