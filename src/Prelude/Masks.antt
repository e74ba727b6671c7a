-- ===== src/Prelude/Masks.antt =====
-- `&` with a mask and `|` of disjoint fields as arithmetic, at every width.
use Prim.Native.Nat.{ℕ, zero, suc, ◌+◌, ◌-◌, ◌*◌, ◌/◌, ◌%◌, ◌^◌, ◌<◌, bit_and, bit_or}
use mathlib.Core.Path.{◌≡◌, refl, ap}
use native.Mathlib.Nat.{pow-suc, one-le-pow, div-div-eq-div-mul}
use native.Mathlib.Omega.{arith}
use riscv_simulator.Prelude.Bits.{bit, bit_and_step, bit_or_step, bit_and-zero}

two_pow : (k : ℕ) → 2 ^ suc k ≡ 2 * 2 ^ k
two_pow k = omega (arith, pow-suc 2 k)

mul-two_pow : (q k : ℕ) → q * 2 ^ suc k ≡ 2 * (q * 2 ^ k)
mul-two_pow q k = omega (arith, ap (λ (t : ℕ). q * t) (pow-suc 2 k))

div-two_pow : (a s : ℕ) → a / 2 ^ suc s ≡ a / 2 / 2 ^ s
div-two_pow a s = ground (arith, div-div-eq-div-mul a 2 (2 ^ s), two_pow s)

-- A mask of `k` ones takes the `k` low bits.
mask_fields : (k q r : ℕ) → r < 2 ^ k → bit_and (q * 2 ^ k + r) (2 ^ k - 1) ≡ r
mask_fields zero q r h = omega (arith, bit_and-zero (q * 1 + r) (q * 1 + r) (omega arith))
mask_fields (suc k) q r h = ground (
  arith,
  bit_and_step (q * 2 ^ suc k + r) (2 ^ suc k - 1),
  mul-two_pow q k,
  two_pow k,
  mask_fields k q (r / 2) (omega (arith, two_pow k)),
)

pub bit_and-mask : (k a : ℕ) → bit_and a (2 ^ k - 1) ≡ a % 2 ^ k
bit_and-mask k a = ground (arith, one-le-pow k 2, mask_fields k (a / 2 ^ k) (a % 2 ^ k))

-- A shifted mask, then the shift back: the field that starts at bit `s`.
pub bit_and-shift : (s a b : ℕ) → bit_and a (b * 2 ^ s) ≡ bit_and (a / 2 ^ s) b * 2 ^ s
bit_and-shift zero a b = ground arith
bit_and-shift (suc s) a b = ground (
  arith,
  bit_and_step a (b * 2 ^ suc s),
  mul-two_pow b s,
  div-two_pow a s,
  bit_and-shift s (a / 2) b,
  mul-two_pow (bit_and (a / 2 ^ suc s) b) s,
)

-- `(q << k) | r` is a sum where `r` fits `k` bits.
bit_or-zero : (n a : ℕ) → a < suc n → bit_or a 0 ≡ a
bit_or-zero n zero h = refl
bit_or-zero zero (suc a) h = absurd (omega arith)
bit_or-zero (suc n) (suc a) h =
    omega (arith, bit_or_step (suc a) 0, bit_or-zero n (suc a / 2) (omega arith))

pub bit_or-fields : (k q r : ℕ) → r < 2 ^ k → bit_or (q * 2 ^ k) r ≡ q * 2 ^ k + r
bit_or-fields zero q r h = ground (arith, bit_or-zero q q (omega arith))
bit_or-fields (suc k) q r h = ground (
  arith,
  bit_or_step (q * 2 ^ suc k) r,
  mul-two_pow q k,
  bit_or-fields k q (r / 2) (omega (arith, two_pow k)),
)

-- A bit by division.
pub bit-eq-div : (i x : ℕ) → bit x i ≡ x / 2 ^ i % 2
unfolding bit
bit-eq-div zero x = omega arith
bit-eq-div (suc i) x = ground (arith, bit-eq-div i (x / 2), div-two_pow x i)

mul-one-eq : (n : ℕ) → 1 * n ≡ n
mul-one-eq n = omega arith

-- `x & (1 << i)` is bit `i`, in its place.
pub bit_and-single : (i x : ℕ) → bit_and x (2 ^ i) ≡ bit x i * 2 ^ i
bit_and-single i x =
    ground
      (arith, bit_and-shift i x 1, bit_and-mask 1 (x / 2 ^ i), bit-eq-div i x, mul-one-eq (2 ^ i))
