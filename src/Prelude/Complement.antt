-- ===== src/Prelude/Complement.antt =====
-- The bits of `~x`, of `1 << k`, and of a word with one field replaced.
use Prim.Native.Nat.{ℕ, zero, suc, ◌-◌, ◌*◌, ◌/◌, ◌^◌, ◌<◌, bit_and}
use mathlib.Core.Path.{◌≡◌, refl}
use native.Mathlib.Nat.{pow-suc, one-le-pow}
use native.Mathlib.Omega.{arith}
use riscv_simulator.Prelude.Tests.{◌==◌, if◌then◌else◌}
use riscv_simulator.Prelude.Bits.{bit, bit-lt, bit-bit_and}

pub two_pow-suc : (k : ℕ) → 2 ^ suc k ≡ 2 * 2 ^ k
two_pow-suc k = omega (arith, pow-suc 2 k)

pub two_pow-lt : (k n : ℕ) → k < n → 2 ^ k < 2 ^ n
two_pow-lt k zero h = absurd (omega arith)
two_pow-lt zero (suc n) h = omega (arith, two_pow-suc n, one-le-pow n 2 (omega arith))
two_pow-lt (suc k) (suc n) h =
    omega (arith, two_pow-suc n, two_pow-suc k, two_pow-lt k n (omega arith))

pub bit-complement : (n x i : ℕ) → x < 2 ^ n → i < n → bit (2 ^ n - 1 - x) i ≡ 1 - bit x i
unfolding bit
bit-complement zero x i h g = absurd (omega arith)
bit-complement (suc n) x zero h g = omega (arith, two_pow-suc n)
bit-complement (suc n) x (suc i) h g = ground (arith, two_pow-suc n, bit-complement n (x / 2) i)

pub bit-zero : (i : ℕ) → bit 0 i ≡ 0
unfolding bit
bit-zero zero = refl
bit-zero (suc i) = bit-zero i

pub bit-two_pow : (k i : ℕ) → bit (2 ^ k) i ≡ (if i == k then 1 else 0)
unfolding bit
bit-two_pow zero zero = refl
bit-two_pow zero (suc i) = ground (arith, bit-zero i)
bit-two_pow (suc k) zero = ground (arith, two_pow-suc k)
bit-two_pow (suc k) (suc i) = ground (arith, two_pow-suc k, bit-two_pow k i)

-- `w & ~(1 << k)` at `n` bits clears bit k and keeps the rest.
pub bit-clear :
    (n k w i : ℕ)
    → k < n
    → i < n
    → bit (bit_and w (2 ^ n - 1 - 2 ^ k)) i ≡ (if i == k then 0 else bit w i)
bit-clear n k w i h g = ground (
  arith,
  bit-bit_and i w (2 ^ n - 1 - 2 ^ k),
  bit-complement n (2 ^ k) i (two_pow-lt k n h) g,
  bit-two_pow k i,
  bit-lt w i,
)
