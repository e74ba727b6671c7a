-- ===== src/Prelude/Bounds.antt =====
-- The results of the word operations fit their words.
use Prim.Native.Nat.{ℕ, ◌/◌, ◌^◌, ◌<◌, bit_and, bit_or, bit_xor}
use mathlib.Core.Bool.{Bool, true, false}
use native.Mathlib.Nat.{div-le_self}
use native.Mathlib.Omega.{arith}
use riscv_simulator.Prelude.Tests.{if◌then◌else◌}
use riscv_simulator.Prelude.Int.{ℤ, pos, negsuc}
use riscv_simulator.Prelude.Words.{u64, sext8, sext16, sext32, sra32, sra64, pattern32, pattern64}
use riscv_simulator.Prelude.Bits.{bit_and-lt, bit_or-lt, bit_xor-lt}

pub div-lt : {b : ℕ} (x k : ℕ) → x < b → x / k < b
div-lt x k h = omega (arith, div-le_self x k)

pub u64-lt : (x : ℕ) → u64 x < 2 ^ 64
u64-lt x = omega arith

pub sext8-lt : (x : ℕ) → x < 2 ^ 8 → sext8 x < 2 ^ 64
unfolding sext8
sext8-lt x h = ground arith

pub sext16-lt : (x : ℕ) → x < 2 ^ 16 → sext16 x < 2 ^ 64
unfolding sext16
sext16-lt x h = ground arith

pub sext32-lt : (x : ℕ) → x < 2 ^ 32 → sext32 x < 2 ^ 64
unfolding sext32
sext32-lt x h = ground arith

pub sra32-lt : (x k : ℕ) → x < 2 ^ 32 → sra32 x k < 2 ^ 32
unfolding sra32
sra32-lt x k h = ground (arith, div-le_self x (2 ^ k))

pub sra64-lt : (x k : ℕ) → x < 2 ^ 64 → sra64 x k < 2 ^ 64
unfolding sra64
sra64-lt x k h = ground (arith, div-le_self x (2 ^ k))

pub pattern32-lt : (z : ℤ) → pattern32 z < 2 ^ 32
unfolding pattern32
pattern32-lt (pos n) = omega arith
pattern32-lt (negsuc n) = omega arith

pub pattern64-lt : (z : ℤ) → pattern64 z < 2 ^ 64
unfolding pattern64
pattern64-lt (pos n) = omega arith
pattern64-lt (negsuc n) = omega arith

pub if-lt : {n : ℕ} (b : Bool) {x y : ℕ} → x < n → y < n → (if b then x else y) < n
if-lt true p q = p
if-lt false p q = q

pub flag-lt : (b : Bool) → (if b then 1 else 0) < 2 ^ 64
flag-lt b = ground arith

pub and64-lt : (x y : ℕ) → x < 2 ^ 64 → bit_and x y < 2 ^ 64
and64-lt x y h = bit_and-lt 64 x y h

pub or64-lt : (x y : ℕ) → x < 2 ^ 64 → y < 2 ^ 64 → bit_or x y < 2 ^ 64
or64-lt x y h g = bit_or-lt 64 x y h g

pub xor64-lt : (x y : ℕ) → x < 2 ^ 64 → y < 2 ^ 64 → bit_xor x y < 2 ^ 64
xor64-lt x y h g = bit_xor-lt 64 x y h g

-- For `search`: a 64-bit result of 64-bit operands.
pub ruleset word_bounds =
    (u64-lt, div-lt, sext32-lt, sra64-lt, pattern64-lt, flag-lt, and64-lt, or64-lt, xor64-lt)
