-- ===== src/Prelude/Int.antt =====
-- Signed integers over the native numbers, under the library's names, with C's division, which
-- rounds to 0.
use Prim.Native.Nat.{ℕ, suc, ◌+◌, ◌-◌, ◌*◌, ◌/◌, ◌%◌}
use mathlib.Core.Bool.{Bool}
use riscv_simulator.Prelude.Tests.{ltb, leb, if◌then◌else◌}

-- `negsuc n` is -(n + 1).
pub data ℤ : Type 0 where
  pos : ℕ → ℤ
  negsuc : ℕ → ℤ

abbrev pub pos_part : ℤ → ℕ
pos_part (pos n) = n
pos_part (negsuc n) = 0

abbrev pub neg_part : ℤ → ℕ
neg_part (pos n) = 0
neg_part (negsuc n) = suc n

-- a - b, as an integer.
abbrev pub sub_ℕ : ℕ → ℕ → ℤ
sub_ℕ a b = if leb b a then pos (a - b) else negsuc (b - a - 1)

abbrev pub ltb_ℤ : ℤ → ℤ → Bool
ltb_ℤ a b = ltb (pos_part a + neg_part b) (pos_part b + neg_part a)

infixl 70 ◌*ℤ◌
unfoldable pub ◌*ℤ◌ : ℤ → ℤ → ℤ
a *ℤ b =
    sub_ℕ (pos_part a * pos_part b + neg_part a * neg_part b)
      (pos_part a * neg_part b + neg_part a * pos_part b)

-- `a / b` of C on signed operands; the callers exclude `b = 0`.
unfoldable pub quot : ℤ → ℤ → ℤ
quot (pos m) (pos n) = pos (m / n)
quot (pos m) (negsuc n) = sub_ℕ 0 (m / suc n)
quot (negsuc m) (pos n) = sub_ℕ 0 (suc m / n)
quot (negsuc m) (negsuc n) = pos (suc m / suc n)

-- `a % b` of C on signed operands: it has the sign of `a`.
unfoldable pub rem : ℤ → ℤ → ℤ
rem (pos m) (pos n) = pos (m % n)
rem (pos m) (negsuc n) = pos (m % suc n)
rem (negsuc m) (pos n) = sub_ℕ 0 (suc m % n)
rem (negsuc m) (negsuc n) = sub_ℕ 0 (suc m % suc n)
