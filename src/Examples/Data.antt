-- ===== src/Examples/Data.antt =====
-- Keys and data of a few bytes.
use bob.Prelude.{[], arith, false, refl, some, true, ◌∷◌, ◌≡◌}
use bob.Options.{BobPutOptions, get_all_options, get_alien_options, delete_local_options}
use bob.Options.Messages.{
  put_from_grpc, put_to_grpc, get_from_grpc, get_to_grpc, delete_from_grpc, delete_to_grpc,
  source_from, get_new_alien, options-round_trip,
}
use bob.Data.{BobData, from_u64, to_serialized_bytes, from_serialized_bytes}
use bob.Data.Bytes.{le_value}
use bob.Data.Laws.{from_serialized_bytes-to_serialized_bytes, le_value-from_u64}

abbrev three_bytes : BobData
three_bytes = record { inner = 7 ∷ 0 ∷ 255 ∷ []; meta = record { timestamp = 66051 } }

from_serialized_bytes-to_serialized_bytes_example :
    from_serialized_bytes (to_serialized_bytes three_bytes) ≡ some three_bytes
from_serialized_bytes-to_serialized_bytes_example =
    from_serialized_bytes-to_serialized_bytes three_bytes (omega arith)

le_value-from_u64_example : le_value (from_u64 16 66051) ≡ 66051
le_value-from_u64_example = le_value-from_u64 16 66051 (omega arith) (omega arith)

abbrev to_two : BobPutOptions
to_two = record { force_node = true; overwrite = false; remote_nodes = "n1" ∷ "n2" ∷ [] }

options-round_trip_example :
    (put_from_grpc (some (put_to_grpc to_two)) ≡ to_two)
    × (get_from_grpc (some (get_to_grpc get_all_options)) ≡ some get_all_options)
    × (delete_from_grpc (some (delete_to_grpc delete_local_options)) ≡ delete_local_options)
    × (get_to_grpc get_alien_options ≡ get_new_alien)
unfolding get_from_grpc source_from get_new_alien
options-round_trip_example =
    options-round_trip to_two get_all_options delete_local_options get_new_alien get_alien_options
      refl
