-- ===== src/Prelude/Words.antt =====
-- Machine words: a w-bit value is its bit pattern, a number below 2 ^ w.
use Prim.Native.Nat.{ℕ, ◌+◌, ◌-◌, ◌*◌, ◌/◌, ◌%◌, ◌^◌}
use mathlib.Core.Bool.{Bool}
use riscv_simulator.Prelude.Tests.{ltb, if◌then◌else◌}
use riscv_simulator.Prelude.Int.{ℤ, pos, negsuc, ltb_ℤ}

-- The casts to the unsigned types.
abbrev pub u8 : ℕ → ℕ
u8 n = n % 2 ^ 8

abbrev pub u16 : ℕ → ℕ
u16 n = n % 2 ^ 16

abbrev pub u32 : ℕ → ℕ
u32 n = n % 2 ^ 32

abbrev pub u64 : ℕ → ℕ
u64 n = n % 2 ^ 64

-- `~x` at 32 and at 64 bits.
abbrev pub not32 : ℕ → ℕ
not32 x = 2 ^ 32 - 1 - x

abbrev pub not64 : ℕ → ℕ
not64 x = 2 ^ 64 - 1 - x

-- `a - b` of `uint64_t`.
abbrev pub sub64 : ℕ → ℕ → ℕ
sub64 a b = u64 (a + 2 ^ 64 - b)

-- `x >> k` of an unsigned value, and `x << k` cut to 32 or 64 bits.
infixl 75 ◌>>>◌
abbrev pub ◌>>>◌ : ℕ → ℕ → ℕ
x >>> k = x / 2 ^ k

abbrev pub shl32 : ℕ → ℕ → ℕ
shl32 x k = u32 (x * 2 ^ k)

abbrev pub shl64 : ℕ → ℕ → ℕ
shl64 x k = u64 (x * 2 ^ k)

-- `x >> k` of an `int32_t` and of an `int64_t`: copies of the sign come in from the left.
unfoldable pub sra32 : ℕ → ℕ → ℕ
sra32 x k = if ltb x (2 ^ 31) then x / 2 ^ k else 2 ^ 32 - 1 - (2 ^ 32 - 1 - x) / 2 ^ k

unfoldable pub sra64 : ℕ → ℕ → ℕ
sra64 x k = if ltb x (2 ^ 63) then x / 2 ^ k else 2 ^ 64 - 1 - (2 ^ 64 - 1 - x) / 2 ^ k

-- The conversion of a signed 8, 16 or 32-bit value to 64 bits.
unfoldable pub sext8 : ℕ → ℕ
sext8 x = if ltb x (2 ^ 7) then x else x + (2 ^ 64 - 2 ^ 8)

unfoldable pub sext16 : ℕ → ℕ
sext16 x = if ltb x (2 ^ 15) then x else x + (2 ^ 64 - 2 ^ 16)

unfoldable pub sext32 : ℕ → ℕ
sext32 x = if ltb x (2 ^ 31) then x else x + (2 ^ 64 - 2 ^ 32)

-- The integer that a pattern stands for as an `int32_t` or an `int64_t`.
unfoldable pub signed32 : ℕ → ℤ
signed32 x = if ltb x (2 ^ 31) then pos x else negsuc (2 ^ 32 - 1 - x)

unfoldable pub signed64 : ℕ → ℤ
signed64 x = if ltb x (2 ^ 63) then pos x else negsuc (2 ^ 64 - 1 - x)

-- The pattern of an integer at 32, 64 and 128 bits.
unfoldable pub pattern32 : ℤ → ℕ
pattern32 (pos n) = n % 2 ^ 32
pattern32 (negsuc n) = 2 ^ 32 - 1 - n % 2 ^ 32

unfoldable pub pattern64 : ℤ → ℕ
pattern64 (pos n) = n % 2 ^ 64
pattern64 (negsuc n) = 2 ^ 64 - 1 - n % 2 ^ 64

unfoldable pub pattern128 : ℤ → ℕ
pattern128 (pos n) = n % 2 ^ 128
pattern128 (negsuc n) = 2 ^ 128 - 1 - n % 2 ^ 128

-- `(int64_t) a < (int64_t) b`.
unfoldable pub slt64 : ℕ → ℕ → Bool
unfolding signed64
slt64 a b = ltb_ℤ (signed64 a) (signed64 b)
