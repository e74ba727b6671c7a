-- ===== src/Prelude/Bits.antt =====
-- The bits of a number, and what `&`, `|` and `^` do to them. The native operations are defined by
-- a recursion on binary digits with fuel; here the fuel is dropped.
use Prim.Native.Nat.{ℕ, zero, suc, ◌+◌, ◌*◌, ◌/◌, ◌%◌, ◌^◌, ◌≤◌, ◌<◌, min, max}
use Prim.Native.Nat.{bit_and, bit_or, bit_xor, digits, bitwise}
use Prim.Native.Nat.{bit_and-bitwise, bit_or-bitwise, bit_xor-bitwise}
use Prim.Native.Nat.{differ}
use mathlib.Core.Path.{◌≡◌, refl, ap, ◌∙◌}
use native.Mathlib.Nat.{pow-suc, le_refl}
use native.Mathlib.Omega.{arith}

module _ (rest : ℕ → ℕ) (digit : ℕ → ℕ → ℕ) where
  -- Any two amounts of fuel that cover the number give the same digits.
  fuel_irrelevant :
      (x y m n : ℕ) → x ≤ m → x ≤ n → digits rest digit m x y ≡ digits rest digit n x y
  fuel_irrelevant zero y zero zero h g = refl
  fuel_irrelevant zero y zero (suc n) h g = refl
  fuel_irrelevant zero y (suc m) zero h g = refl
  fuel_irrelevant zero y (suc m) (suc n) h g = refl
  fuel_irrelevant (suc x) y zero n h g = absurd (omega arith)
  fuel_irrelevant (suc x) y (suc m) zero h g = absurd (omega arith)
  fuel_irrelevant (suc x) y (suc m) (suc n) h g =
      ap (λ (t : ℕ). t * 2 + digit (suc x % 2) (y % 2))
        (fuel_irrelevant (suc x / 2) (y / 2) m n (omega arith) (omega arith))

  -- One digit of the operation, for a number that has one.
  bitwise_digit :
      (x y : ℕ)
      → bitwise rest digit (suc x) y
        ≡ bitwise rest digit (suc x / 2) (y / 2) * 2 + digit (suc x % 2) (y % 2)
  bitwise_digit x y =
      ap (λ (t : ℕ). t * 2 + digit (suc x % 2) (y % 2))
        (fuel_irrelevant (suc x / 2) (y / 2) x (suc x / 2) (omega arith) (le_refl (suc x / 2)))

-- The lowest digit of each result.
pub bit_and_step : (x y : ℕ) → bit_and x y ≡ bit_and (x / 2) (y / 2) * 2 + min (x % 2) (y % 2)
bit_and_step (suc x) y = simp bit_and-bitwise (bitwise_digit (λ y. 0) min x y)
bit_and_step zero y = simp bit_and-bitwise (omega arith)

pub bit_or_step : (x y : ℕ) → bit_or x y ≡ bit_or (x / 2) (y / 2) * 2 + max (x % 2) (y % 2)
bit_or_step (suc x) y = simp bit_or-bitwise (bitwise_digit (λ y. y) max x y)
bit_or_step zero y = simp bit_or-bitwise (omega arith)

differ-lt : (x y : ℕ) → x < 2 → y < 2 → differ x y ≡ (x + y) % 2
differ-lt zero y p q = omega arith
differ-lt (suc zero) zero p q = refl
differ-lt (suc zero) (suc zero) p q = refl
differ-lt (suc zero) (suc (suc y)) p q = absurd (omega arith)
differ-lt (suc (suc x)) y p q = absurd (omega arith)

pub bit_xor_step : (a b : ℕ) → bit_xor a b ≡ bit_xor (a / 2) (b / 2) * 2 + (a % 2 + b % 2) % 2
bit_xor_step zero b = simp bit_xor-bitwise (omega arith)
bit_xor_step (suc a) b =
    simp (bit_xor-bitwise, ← differ-lt (suc a % 2) (b % 2) (omega arith) (omega arith))
      (bitwise_digit (λ y. y) differ a b)

-- Bit `i` of a number, 0 or 1.
unfoldable pub bit : ℕ → ℕ → ℕ
bit x zero = x % 2
bit x (suc i) = bit (x / 2) i

pub bit-lt : (x i : ℕ) → bit x i < 2
unfolding bit
bit-lt x zero = omega arith
bit-lt x (suc i) = bit-lt (x / 2) i

pub bit-bit_and : (i a b : ℕ) → bit (bit_and a b) i ≡ min (bit a i) (bit b i)
unfolding bit
bit-bit_and zero a b = omega (arith, bit_and_step a b)
bit-bit_and (suc i) a b =
    ap (λ (t : ℕ). bit t i) (omega (arith, bit_and_step a b)) ∙ bit-bit_and i (a / 2) (b / 2)

pub bit-bit_or : (i a b : ℕ) → bit (bit_or a b) i ≡ max (bit a i) (bit b i)
unfolding bit
bit-bit_or zero a b = omega (arith, bit_or_step a b)
bit-bit_or (suc i) a b =
    ap (λ (t : ℕ). bit t i) (omega (arith, bit_or_step a b)) ∙ bit-bit_or i (a / 2) (b / 2)

pub bit-bit_xor : (i a b : ℕ) → bit (bit_xor a b) i ≡ (bit a i + bit b i) % 2
unfolding bit
bit-bit_xor zero a b = omega (arith, bit_xor_step a b)
bit-bit_xor (suc i) a b =
    ap (λ (t : ℕ). bit t i) (omega (arith, bit_xor_step a b)) ∙ bit-bit_xor i (a / 2) (b / 2)

-- A result has no more digits than its operands.
pub bit_and-lt : (k a b : ℕ) → a < 2 ^ k → bit_and a b < 2 ^ k
bit_and-lt zero zero b h = omega (arith, bit_and-bitwise 0 b)
bit_and-lt zero (suc a) b h = absurd (omega arith)
bit_and-lt (suc k) a b h = omega (
  arith,
  pow-suc 2 k,
  bit_and_step a b,
  bit_and-lt k (a / 2) (b / 2) (omega (arith, pow-suc 2 k)),
)

pub bit_or-lt : (k a b : ℕ) → a < 2 ^ k → b < 2 ^ k → bit_or a b < 2 ^ k
bit_or-lt zero zero b h g = omega (arith, bit_or-bitwise 0 b)
bit_or-lt zero (suc a) b h g = absurd (omega arith)
bit_or-lt (suc k) a b h g = omega (
  arith,
  pow-suc 2 k,
  bit_or_step a b,
  bit_or-lt k (a / 2) (b / 2) (omega (arith, pow-suc 2 k)) (omega (arith, pow-suc 2 k)),
)

pub bit_xor-lt : (k a b : ℕ) → a < 2 ^ k → b < 2 ^ k → bit_xor a b < 2 ^ k
bit_xor-lt zero zero b h g = omega (arith, bit_xor-bitwise 0 b)
bit_xor-lt zero (suc a) b h g = absurd (omega arith)
bit_xor-lt (suc k) a b h g = omega (
  arith,
  pow-suc 2 k,
  bit_xor_step a b,
  bit_xor-lt k (a / 2) (b / 2) (omega (arith, pow-suc 2 k)) (omega (arith, pow-suc 2 k)),
)

-- A mask of `k` low bits is the remainder by `2 ^ k`.
bit_and-zero_left : (b : ℕ) → bit_and 0 b ≡ 0
bit_and-zero_left b = bit_and-bitwise 0 b

pub bit_and-zero : (n a : ℕ) → a ≤ n → bit_and a 0 ≡ 0
bit_and-zero n zero h = refl
bit_and-zero zero (suc a) h = absurd (omega arith)
bit_and-zero (suc n) (suc a) h =
    omega (arith, bit_and_step (suc a) 0, bit_and-zero n (suc a / 2) (omega arith))
