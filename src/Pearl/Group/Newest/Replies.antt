-- ===== src/Pearl/Group/Newest/Replies.antt =====
-- The replies of `get` of a group (bob-backend/src/pearl/group.rs).
use bob.Prelude.{Bool, Option, ℕ}
use bob.Data.{BobKey, BobData}
use bob.Error.{Result}
use bob.Pearl.Storage.{ReadResult, PearlStorage}
use bob.Pearl.Holder.{Holder}
use bob.Pearl.Group.{Group}
use bob.Pearl.Group.Newest.{says}

module _ {S : Type 0} (pearl : PearlStorage S) (create_and_prepare_storage : ℕ → Result S)
    (now max_time : ℕ) (is_possible : BobKey → Holder S → Bool) (key : BobKey) where
  module _ (g : Group S) where
    -- What a holder of the group holds of the key.
    abbrev pub reads : Holder S → Option (Result (ReadResult BobData))
    reads h = says pearl create_and_prepare_storage now max_time is_possible key h
