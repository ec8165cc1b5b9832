-- ===== src/Pearl/Storage.antt =====
-- What bob-backend uses of the `pearl` library: the storage of one directory, which keeps records
-- with timestamps, and marks of deletion. The library is a parameter, an interface of its calls.
use bob.Prelude.{Bool, List, ℕ}
use bob.Data.{BobKey}
use bob.Act.{Act}

pub data ReadResult {ℓ} (A : Type ℓ) : Type ℓ where
  found : A → ReadResult A
  deleted : ℕ → ReadResult A
  not_found : ReadResult A

-- As far as the holder tells errors apart: an error that is none of pearl's, an unavailable
-- directory, and all others.
pub data PearlError : Type 0 where
  not_pearl work_dir_unavailable other_kind : PearlError

pub data PearlResult {ℓ} (A : Type ℓ) : Type ℓ where
  done : A → PearlResult A
  failure : PearlError → PearlResult A

pub record PearlStorage (S : Type 0) : Type 0 where
  -- A record with its timestamp.
  pub write : BobKey → List ℕ → ℕ → Act S (PearlResult (Unit {0}))
  -- The newest record of the key.
  pub read : S → BobKey → PearlResult (ReadResult (List ℕ))
  pub contains : S → BobKey → PearlResult (ReadResult ℕ)
  -- A mark of deletion with its timestamp; with the flag, only where the key is present.
  pub delete : BobKey → ℕ → Bool → Act S (PearlResult ℕ)
