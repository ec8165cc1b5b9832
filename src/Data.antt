-- ===== src/Data.antt =====
-- bob-common/src/data.rs: keys, and stored data with its timestamp. A byte is a number below 256,
-- a key is its bytes in order.
pub mod Bytes
pub mod Laws
use bob.Prelude.{List, Option, drop, if◌then◌else◌, leb, length, none, some, take, ℕ, ◌++◌}
use bob.Data.Bytes.{to_le_bytes, to_be_bytes, from_be_bytes, overlay}
use Prim.Native.Nat.{zero, ◌+◌}

abbrev pub BobKey : Type 0
BobKey = List ℕ

pub record BobMeta : Type 0 where
  pub timestamp : ℕ

pub record BobData : Type 0 where
  pub inner : List ℕ
  pub meta : BobMeta

abbrev pub timestamp_len : ℕ
timestamp_len = 8

-- `BobKey::from(u64)`: the eight bytes of the number written over `size` zeros.
pub from_u64 : ℕ → ℕ → BobKey
from_u64 size n = overlay size (to_le_bytes 8 n)

unfoldable pub to_serialized_bytes : BobData → List ℕ
to_serialized_bytes d = to_be_bytes timestamp_len d.meta.timestamp ++ d.inner

-- `split_to` panics where there are fewer bytes than it takes: `none`.
unfoldable pub from_serialized_bytes : List ℕ → Option BobData
from_serialized_bytes bytes =
    if leb timestamp_len (length bytes)
    then some (record {
      inner = drop timestamp_len bytes;
      meta = record { timestamp = from_be_bytes (take timestamp_len bytes) };
    })
    else none
