-- ===== src/Data/Bytes.antt =====
-- The byte orders of the standard library: `u64::to_le_bytes`, `to_be_bytes`, `from_be_bytes`.
use mathlib.Core.List.{reverse}
use bob.Prelude.{
  All, List, [], ap, arith, length, refl, suc, zero, ℕ, ◌%◌, ◌*◌, ◌+◌, ◌/◌, ◌<◌, ◌^◌, ◌∷◌, ◌≡◌, ◌≤◌,
}
use native.Mathlib.Nat.{pow-suc}

unfoldable pub to_le_bytes : ℕ → ℕ → List ℕ
to_le_bytes zero n = []
to_le_bytes (suc k) n = (n % 256) ∷ to_le_bytes k (n / 256)

unfoldable pub to_be_bytes : ℕ → ℕ → List ℕ
unfolding to_le_bytes
to_be_bytes k n = reverse (to_le_bytes k n)

-- The number that little-endian bytes stand for.
unfoldable pub le_value : List ℕ → ℕ
le_value [] = 0
le_value (b ∷ bs) = b + 256 * le_value bs

unfoldable pub from_be_bytes : List ℕ → ℕ
unfolding le_value
from_be_bytes bs = le_value (reverse bs)

-- `key.iter_mut().zip(bytes)`: the bytes that fit are written over `size` zeros.
unfoldable pub overlay : ℕ → List ℕ → List ℕ
overlay zero bs = []
overlay (suc k) [] = 0 ∷ overlay k []
overlay (suc k) (b ∷ bs) = b ∷ overlay k bs

pub length-to_le_bytes : (k n : ℕ) → length (to_le_bytes k n) ≡ k
unfolding to_le_bytes
length-to_le_bytes zero n = refl
length-to_le_bytes (suc k) n = ap suc (length-to_le_bytes k (n / 256))

pub All-to_le_bytes : (k n : ℕ) → All (λ b. b < 256) (to_le_bytes k n)
unfolding to_le_bytes
All-to_le_bytes zero n = tt
All-to_le_bytes (suc k) n = (omega arith, All-to_le_bytes k (n / 256))

-- What `k` bytes can hold comes back.
pub le_value-to_le_bytes : (k n : ℕ) → n < 256 ^ k → le_value (to_le_bytes k n) ≡ n
unfolding to_le_bytes le_value
le_value-to_le_bytes zero n h = omega arith
le_value-to_le_bytes (suc k) n h =
    omega (arith, le_value-to_le_bytes k (n / 256) (omega (arith, pow-suc 256 k)))

pub le_value-overlay_zeros : (k : ℕ) → le_value (overlay k []) ≡ 0
unfolding le_value overlay
le_value-overlay_zeros zero = refl
le_value-overlay_zeros (suc k) = omega (arith, le_value-overlay_zeros k)

pub le_value-overlay :
    (size : ℕ) (bs : List ℕ) → length bs ≤ size → le_value (overlay size bs) ≡ le_value bs
unfolding le_value overlay
le_value-overlay zero [] h = refl
le_value-overlay zero (b ∷ bs) h = elim h [ ]
le_value-overlay (suc k) [] h = omega (arith, le_value-overlay_zeros k)
le_value-overlay (suc k) (b ∷ bs) h = omega (arith, le_value-overlay k bs (omega arith))
