-- ===== src/Options.antt =====
-- bob-common/src/operation_options.rs: the options of a request. Options/Messages
-- has the messages that carry them.
pub mod Messages
use bob.Prelude.{Bool, List, String, [], any, false, true, ◌==◌, ◌∷◌}

pub record BobPutOptions : Type 0 where
  pub force_node : Bool
  pub overwrite : Bool
  pub remote_nodes : List String

-- `GetSource` of bob-grpc: All, Normal, Alien.
pub data GetSource : Type 0 where
  all_sources normal alien : GetSource

pub record BobGetOptions : Type 0 where
  pub force_node : Bool
  pub get_source : GetSource

pub record BobDeleteOptions : Type 0 where
  pub force_node : Bool
  pub is_alien : Bool
  pub force_alien_nodes : List String

abbrev pub put_local_options : BobPutOptions
put_local_options = record { remote_nodes = []; force_node = true; overwrite = false }

abbrev pub put_alien_options : List String → BobPutOptions
put_alien_options nodes = record { remote_nodes = nodes; force_node = true; overwrite = false }

-- `BobPutOptions::to_alien`
abbrev pub put_to_alien : BobPutOptions → Bool
put_to_alien o = elim o.remote_nodes [ [] ↦ false | _ ∷ _ ↦ true ]

abbrev pub get_local_options : BobGetOptions
get_local_options = record { force_node = true; get_source = normal }

abbrev pub get_alien_options : BobGetOptions
get_alien_options = record { force_node = true; get_source = alien }

abbrev pub get_all_options : BobGetOptions
get_all_options = record { force_node = true; get_source = all_sources }

abbrev pub get_all : BobGetOptions → Bool
get_all o = elim o.get_source [ all_sources ↦ true | normal ↦ false | alien ↦ false ]

abbrev pub get_normal : BobGetOptions → Bool
get_normal o = elim o.get_source [ all_sources ↦ true | normal ↦ true | alien ↦ false ]

abbrev pub get_alien : BobGetOptions → Bool
get_alien o = elim o.get_source [ all_sources ↦ true | normal ↦ false | alien ↦ true ]

abbrev pub delete_local_options : BobDeleteOptions
delete_local_options = record { force_node = true; is_alien = false; force_alien_nodes = [] }

abbrev pub delete_alien_options : List String → BobDeleteOptions
delete_alien_options nodes = record {
  force_node = true;
  is_alien = true;
  force_alien_nodes = nodes;
}

abbrev pub is_force_delete : BobDeleteOptions → String → Bool
is_force_delete o name = any (λ x. x == name) o.force_alien_nodes
