-- ===== src/Inst/MExtension/Product.antt =====
-- The high and the low half make the whole product.
use riscv_simulator.Prelude.{
  ℕ, suc, ◌≡◌, ◌+◌, ◌-◌, ◌*◌, ◌^◌, ◌/◌, ◌<◌, ◌≤◌, arith, u64, pos, negsuc, signed64, pattern64,
  pattern128, ℤ, ◌*ℤ◌, sub_ℕ, ◌>>>◌, pos_part, neg_part, ap, Bool-cases, ltb, ltb→lt, ltb-false→le,
  inl, inr,
}
use native.Mathlib.Nat.{mul-le-mul, mul-add, mul_comm}
use riscv_simulator.Inst.MExtension.{mul, mulh, mulhu}

halves : (z : ℤ) → u64 (pattern128 z >>> 64) * 2 ^ 64 + pattern64 z ≡ pattern128 z
unfolding pattern64 pattern128
halves (pos n) = omega arith
halves (negsuc n) = omega arith

-- MULH and MUL of the same operands are the two halves of their signed product at 128 bits.
pub mulh-mul : (x y : ℕ) → mulh x y * 2 ^ 64 + mul x y ≡ pattern128 (signed64 x *ℤ signed64 y)
unfolding mulh mul
mulh-mul x y = halves (signed64 x *ℤ signed64 y)

-- A product of two words fits two words.
mul-lt : (x y : ℕ) → x < 2 ^ 64 → y < 2 ^ 64 → x * y < 2 ^ 128
mul-lt x y h g = omega (
  arith,
  mul-le-mul {n₁ = x} {m₁ = y} {n₂ = 2 ^ 64 - 1} {m₂ = 2 ^ 64 - 1} (omega arith) (omega arith),
)

mulhu-wide : (x y : ℕ) → x < 2 ^ 64 → y < 2 ^ 64 → mulhu x y ≡ x * y / 2 ^ 64
unfolding mulhu
mulhu-wide x y h g = ground (arith, mul-lt x y h g)

-- The two interpretations of a factor differ by a multiple of 2 ^ 64.
mul-split : (q k y : ℕ) → k + y ≡ 2 ^ 64 → q * y + q * k ≡ q * 2 ^ 64
mul-split q k y h = omega (arith, mul-add q k y, ap (λ (t : ℕ). q * t) h)

split-mul : (q k y : ℕ) → k + y ≡ 2 ^ 64 → y * q + k * q ≡ q * 2 ^ 64
split-mul q k y h = omega (arith, mul-split q k y h, mul_comm q k, mul_comm q y)

-- The pattern of a difference.
pattern64-sub_ℕ : (a b : ℕ) → u64 (pattern64 (sub_ℕ a b) + b) ≡ u64 a
unfolding pattern64
pattern64-sub_ℕ a b = ground arith

pattern64-lt : (z : ℤ) → pattern64 z < 2 ^ 64
unfolding pattern64
pattern64-lt (pos n) = omega arith
pattern64-lt (negsuc n) = omega arith

-- What `u64` of a product is, from its parts.
pattern64-product :
    (a b : ℤ)
    → u64 (pattern64 (a *ℤ b) + (pos_part a * neg_part b + neg_part a * pos_part b))
      ≡ u64 (pos_part a * pos_part b + neg_part a * neg_part b)
unfolding ◌*ℤ◌
pattern64-product a b = pattern64-sub_ℕ _ _

signed64-pos : (x : ℕ) → x < 2 ^ 63 → signed64 x ≡ pos x
unfolding signed64
signed64-pos x h = ground arith

signed64-neg : (x : ℕ) → 2 ^ 63 ≤ x → signed64 x ≡ negsuc (2 ^ 64 - 1 - x)
unfolding signed64
signed64-neg x h = ground arith

pos_pos : (x y : ℕ) → pattern64 (pos x *ℤ pos y) ≡ u64 (x * y)
pos_pos x y = ground (arith, pattern64-product (pos x) (pos y), pattern64-lt (pos x *ℤ pos y))

neg_pos : (x y : ℕ) → x < 2 ^ 64 → pattern64 (negsuc (2 ^ 64 - 1 - x) *ℤ pos y) ≡ u64 (x * y)
neg_pos x y h =
    let z = negsuc (2 ^ 64 - 1 - x) in
    ground (
      arith,
      pattern64-product z (pos y),
      pattern64-lt (z *ℤ pos y),
      split-mul y (suc (2 ^ 64 - 1 - x)) x (omega arith),
    )

pos_neg : (x y : ℕ) → y < 2 ^ 64 → pattern64 (pos x *ℤ negsuc (2 ^ 64 - 1 - y)) ≡ u64 (x * y)
pos_neg x y h =
    let z = negsuc (2 ^ 64 - 1 - y) in
    ground (
      arith,
      pattern64-product (pos x) z,
      pattern64-lt (pos x *ℤ z),
      mul-split x (suc (2 ^ 64 - 1 - y)) y (omega arith),
    )

neg_neg :
    (x y : ℕ)
    → x < 2 ^ 64
    → y < 2 ^ 64
    → pattern64 (negsuc (2 ^ 64 - 1 - x) *ℤ negsuc (2 ^ 64 - 1 - y)) ≡ u64 (x * y)
neg_neg x y h g =
    let z = negsuc (2 ^ 64 - 1 - x) in
    let w = negsuc (2 ^ 64 - 1 - y) in
    ground (
      arith,
      pattern64-product z w,
      pattern64-lt (z *ℤ w),
      mul-split x (suc (2 ^ 64 - 1 - y)) y (omega arith),
      split-mul (suc (2 ^ 64 - 1 - y)) (suc (2 ^ 64 - 1 - x)) x (omega arith),
    )

-- The low half does not depend on the signs.
mul-u64 : (x y : ℕ) → x < 2 ^ 64 → y < 2 ^ 64 → mul x y ≡ u64 (x * y)
unfolding mul
mul-u64 x y h g = elim (Bool-cases (ltb x (2 ^ 63))) [
  | inl t ↦ elim (Bool-cases (ltb y (2 ^ 63))) [
    | inl s ↦ rw (signed64-pos x (ltb→lt _ _ t), signed64-pos y (ltb→lt _ _ s)) (pos_pos x y)
    | inr f ↦
        rw (signed64-pos x (ltb→lt _ _ t), signed64-neg y (ltb-false→le _ _ f)) (pos_neg x y g)
  ]
  | inr n ↦ elim (Bool-cases (ltb y (2 ^ 63))) [
    | inl s ↦
        rw (signed64-neg x (ltb-false→le _ _ n), signed64-pos y (ltb→lt _ _ s)) (neg_pos x y h)
    | inr f ↦
        rw (signed64-neg x (ltb-false→le _ _ n), signed64-neg y (ltb-false→le _ _ f))
          (neg_neg x y h g)
  ]
]

-- For any two 64-bit operands, MULHU and MUL are the two halves of their unsigned product.
pub mulhu-mul : (x y : ℕ) → x < 2 ^ 64 → y < 2 ^ 64 → mulhu x y * 2 ^ 64 + mul x y ≡ x * y
mulhu-mul x y h g = omega (arith, mulhu-wide x y h g, mul-u64 x y h g)
