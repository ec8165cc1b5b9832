-- ===== src/Mapper/VdiskId.antt =====
-- `get_vdisk_id_by_mod` of bob-common/src/mapper.rs: the remainder of a key of any length, byte by byte, in 64-bit arithmetic.
use bob.Prelude.{All, List, [], ap, arith, sym, ℕ, ◌%◌, ◌*◌, ◌+◌, ◌/◌, ◌<◌, ◌^◌, ◌∙◌, ◌∷◌, ◌≡◌, ◌≤◌}
use native.Mathlib.Nat.{
  mod-add-mod, div-add-mod, add-mul-mod_self_left, add-mod-mod, mod-eq_of_lt, mod-lt, mul-zero,
  add-zero, le_of_lt,
}
use bob.Data.Bytes.{le_value}

-- The fold over the bytes, with its pair `[rem, bmult]`; `usize` has 64 bits.
unfoldable pub mod_fold : ℕ → List ℕ → ℕ → ℕ → ℕ
mod_fold len [] rem bmult = rem
mod_fold len (byte ∷ bytes) rem bmult =
    mod_fold len bytes ((rem + bmult * byte % 2 ^ 64) % 2 ^ 64 % len) (bmult * 2 ^ 8 % 2 ^ 64 % len)

unfoldable pub vdisk_id_by_mod : List ℕ → ℕ → ℕ
unfolding mod_fold
vdisk_id_by_mod key len = mod_fold len key 0 1

product_fits :
    (bmult byte len : ℕ) → len ≤ 2 ^ 32 → byte < 256 → bmult ≤ len → bmult * byte < 2 ^ 64
product_fits bmult byte len w b k = grind arith

sum_fits :
    (rem bmult byte len : ℕ)
    → len ≤ 2 ^ 32
    → byte < 256
    → rem < len
    → bmult ≤ len
    → rem + bmult * byte < 2 ^ 64
sum_fits rem bmult byte len w b h k = grind arith

shift_fits : (bmult len : ℕ) → len ≤ 2 ^ 32 → bmult ≤ len → bmult * 2 ^ 8 < 2 ^ 64
shift_fits bmult len w k = omega arith

mod_mul : (a v m : ℕ) → a % m * v % m ≡ a * v % m
mod_mul a v m =
    sym (add-mul-mod_self_left (a % m * v) m (a / m * v))
    ∙ ap (λ (t : ℕ). t % m) (omega (arith, ap (λ (t : ℕ). t * v) (div-add-mod a m)))

-- With no overflow the step keeps the remainder of the whole key.
mod_step :
    (rem bmult byte v len : ℕ)
    → 0 < len
    → ((rem + bmult * byte) % len + (bmult * 256) % len * v) % len
      ≡ (rem + bmult * (byte + 256 * v)) % len
mod_step rem bmult byte v len h =
    mod-add-mod (rem + bmult * byte) len _
    ∙ sym (add-mod-mod (rem + bmult * byte) (bmult * 256 % len * v) len)
    ∙ (rw (mod_mul (bmult * 256) v len) (
        add-mod-mod (rem + bmult * byte) (bmult * 256 * v) len
        ∙ ap (λ (t : ℕ). t % len) (omega arith)))

mod_fold-le_value :
    (len : ℕ) (key : List ℕ) (rem bmult : ℕ)
    → 0 < len
    → len ≤ 2 ^ 32
    → All (λ b. b < 256) key
    → rem < len
    → bmult ≤ len
    → mod_fold len key rem bmult ≡ (rem + bmult * le_value key) % len
unfolding mod_fold le_value
mod_fold-le_value len [] rem bmult p w bs h k = sym (rw (mul-zero, add-zero) (mod-eq_of_lt h))
mod_fold-le_value len (byte ∷ bytes) rem bmult p w bs h k =
    rw
      (
        mod-eq_of_lt (product_fits bmult byte len w bs.0 k),
        mod-eq_of_lt (sum_fits rem bmult byte len w bs.0 h k),
        mod-eq_of_lt (shift_fits bmult len w k),
      )
      (mod_fold-le_value len bytes _ _ p w bs.1 (mod-lt _ p) (le_of_lt (mod-lt _ p))
        ∙ mod_step rem bmult byte (le_value bytes) len p)

-- For at most 2 ^ 32 vdisks, the id of a key is the number that its bytes stand for, least
-- significant byte first, modulo the number of vdisks: no intermediate value overflows.
pub vdisk_id_by_mod-eq-mod :
    (key : List ℕ) (len : ℕ)
    → 0 < len
    → len ≤ 2 ^ 32
    → All (λ b. b < 256) key
    → vdisk_id_by_mod key len ≡ le_value key % len
unfolding vdisk_id_by_mod
vdisk_id_by_mod-eq-mod key len p w bs = ground (arith, mod_fold-le_value len key 0 1 p w bs p p)
