-- ===== src/Prelude/Fields.antt =====
-- `|` of fields that do not overlap.
use Prim.Native.Nat.{ℕ, zero, suc, ◌+◌, ◌*◌, ◌/◌, ◌%◌, ◌^◌, ◌<◌, bit_or}
use mathlib.Core.Path.{◌≡◌, ap, ◌∙◌}
use native.Mathlib.Nat.{div-add-mod, mul_comm}
use native.Mathlib.Omega.{arith}
use riscv_simulator.Prelude.Bits.{bit_or_step}
use riscv_simulator.Prelude.Masks.{bit_or-fields}
use riscv_simulator.Prelude.Complement.{two_pow-suc}

-- A lower field below the last digit of the upper one.
pub bit_or-add : (k a r : ℕ) → a % 2 ^ k ≡ 0 → r < 2 ^ k → bit_or a r ≡ a + r
bit_or-add k a r h g =
    let q = a / 2 ^ k in
    let e : a ≡ q * 2 ^ k = omega (arith, h, div-add-mod a (2 ^ k), mul_comm (2 ^ k) q) in
    ap (λ (t : ℕ). bit_or t r) e ∙ omega (arith, bit_or-fields k q r g, e)

mul-two_pow-suc : (q k : ℕ) → q * 2 ^ suc k ≡ 2 * (q * 2 ^ k)
mul-two_pow-suc q k = omega (arith, ap (λ (t : ℕ). q * t) (two_pow-suc k))

-- The upper parts and the lower parts, apart.
pub bit_or-split :
    (k q p r s : ℕ)
    → r < 2 ^ k
    → s < 2 ^ k
    → bit_or (q * 2 ^ k + r) (p * 2 ^ k + s) ≡ bit_or q p * 2 ^ k + bit_or r s
bit_or-split zero q p zero zero h g = ground arith
bit_or-split zero q p zero (suc s) h g = absurd (omega arith)
bit_or-split zero q p (suc r) s h g = absurd (omega arith)
bit_or-split (suc k) q p r s h g = ground (
  arith,
  bit_or_step (q * 2 ^ suc k + r) (p * 2 ^ suc k + s),
  mul-two_pow-suc q k,
  mul-two_pow-suc p k,
  mul-two_pow-suc (bit_or q p) k,
  bit_or_step r s,
  two_pow-suc k,
  bit_or-split k q p (r / 2) (s / 2),
)
