-- ===== src/Options/Messages.antt =====
-- The options as messages: bob-grpc/proto/bob.proto, bob-grpc/src/lib.rs, and the conversions of
-- bob-common/src/operation_options.rs. Names are texts on both sides. The source of a get is an
-- `int32`; another value than 0, 1 and 2, of which a negative one is not modelled, panics: `none`.
use bob.Prelude.{
  Bool, List, Option, Option-cases, String, [], arith, eqb, false, if◌then◌else◌, inl, inr, none,
  refl, some, true, ℕ, ◌≡◌,
}
use bob.Options.{
  BobPutOptions, BobGetOptions, BobDeleteOptions, GetSource, all_sources, normal, alien,
}
use mathlib.Core.Option

pub record PutOptions : Type 0 where
  pub remote_nodes : List String
  pub force_node : Bool
  pub overwrite : Bool

pub record GetOptions : Type 0 where
  pub force_node : Bool
  pub source : ℕ

pub record DeleteOptions : Type 0 where
  pub force_alien_nodes : List String
  pub force_node : Bool
  pub is_alien : Bool

unfoldable pub source_from : ℕ → Option GetSource
source_from n =
    if eqb n 0
    then some all_sources
    else if eqb n 1
    then some normal
    else if eqb n 2
    then some alien
    else none

unfoldable pub source_number : GetSource → ℕ
source_number all_sources = 0
source_number normal = 1
source_number alien = 2

unfoldable pub put_from_grpc : Option PutOptions → BobPutOptions
put_from_grpc (some o) = record {
  force_node = o.force_node;
  overwrite = o.overwrite;
  remote_nodes = o.remote_nodes;
}
put_from_grpc none = record { force_node = false; overwrite = false; remote_nodes = [] }

unfoldable pub put_to_grpc : BobPutOptions → PutOptions
put_to_grpc o = record {
  remote_nodes = o.remote_nodes;
  force_node = o.force_node;
  overwrite = o.overwrite;
}

unfoldable pub get_from_grpc : Option GetOptions → Option BobGetOptions
unfolding source_from
get_from_grpc (some o) =
    Option.map (λ s. record { force_node = o.force_node; get_source = s }) (source_from o.source)
get_from_grpc none = some (record { force_node = false; get_source = all_sources })

unfoldable pub get_to_grpc : BobGetOptions → GetOptions
unfolding source_number
get_to_grpc o = record { force_node = o.force_node; source = source_number o.get_source }

unfoldable pub delete_from_grpc : Option DeleteOptions → BobDeleteOptions
delete_from_grpc (some o) = record {
  force_node = o.force_node;
  is_alien = o.is_alien;
  force_alien_nodes = o.force_alien_nodes;
}
delete_from_grpc none = record { force_node = false; is_alien = false; force_alien_nodes = [] }

unfoldable pub delete_to_grpc : BobDeleteOptions → DeleteOptions
delete_to_grpc o = record {
  force_alien_nodes = o.force_alien_nodes;
  force_node = o.force_node;
  is_alien = o.is_alien;
}

-- The constructors on the side of the messages.
unfoldable pub put_new_local : PutOptions
put_new_local = record { remote_nodes = []; force_node = true; overwrite = false }

unfoldable pub put_new_alien : List String → PutOptions
put_new_alien nodes = record { remote_nodes = nodes; force_node = true; overwrite = false }

unfoldable pub get_new_local : GetOptions
get_new_local = record { force_node = true; source = 1 }

unfoldable pub get_new_alien : GetOptions
get_new_alien = record { force_node = true; source = 2 }

unfoldable pub get_new_all : GetOptions
get_new_all = record { force_node = true; source = 0 }

unfoldable pub delete_new_local : DeleteOptions
delete_new_local = record { force_alien_nodes = []; force_node = true; is_alien = false }

unfoldable pub delete_new_alien : List String → DeleteOptions
delete_new_alien nodes = record { force_alien_nodes = nodes; force_node = true; is_alien = true }

source_from-source_number : (s : GetSource) → source_from (source_number s) ≡ some s
unfolding source_from source_number
source_from-source_number all_sources = refl
source_from-source_number normal = refl
source_from-source_number alien = refl

source_number-from : (n : ℕ) (s : GetSource) → source_from n ≡ some s → source_number s ≡ n
unfolding source_from source_number
source_number-from n all_sources e = ground arith
source_number-from n normal e = ground arith
source_number-from n alien e = ground arith

get_to_grpc-back :
    (x : GetOptions) (y : BobGetOptions) → get_from_grpc (some x) ≡ some y → get_to_grpc y ≡ x
unfolding get_from_grpc get_to_grpc
get_to_grpc-back x y e = elim (Option-cases (source_from x.source)) [
  | inl f ↦ absurd (ground (arith, e, f))
  | inr (s, f) ↦
      let k : y ≡ record { force_node = x.force_node; get_source = s } = ground (arith, e, f) in
      rw (k, source_number-from x.source s f) refl
]

-- Options of the three kinds come back whole from the messages that they are sent as, and a
-- message of a get comes back from the options that it is read as, where its source is known.
pub options-round_trip :
    (p : BobPutOptions) (g : BobGetOptions) (d : BobDeleteOptions) (x : GetOptions)
    (y : BobGetOptions)
    → get_from_grpc (some x) ≡ some y
    → (put_from_grpc (some (put_to_grpc p)) ≡ p)
      × (get_from_grpc (some (get_to_grpc g)) ≡ some g)
      × (delete_from_grpc (some (delete_to_grpc d)) ≡ d)
      × (get_to_grpc y ≡ x)
unfolding put_from_grpc put_to_grpc get_from_grpc get_to_grpc delete_from_grpc delete_to_grpc
options-round_trip p g d x y e =
    (refl, rw (source_from-source_number g.get_source) refl, refl, get_to_grpc-back x y e)
