-- ===== src/Inst/MExtension/Division.antt =====
-- Division and remainder belong together.
use riscv_simulator.Prelude.{
  ℕ, zero, suc, ◌≡◌, ◌+◌, ◌-◌, ◌*◌, ◌^◌, ◌%◌, ◌/◌, ◌<◌, ◌≤◌, arith, u64, quot, rem, signed64,
  pattern64, sub_ℕ, Bool-cases, ltb, ltb→lt, ltb-false→le, inl, inr, ap, sym, ◌∙◌,
}
use native.Mathlib.Nat.{div-le_self, div-add-mod, mul_comm, mul-sub, mul-le-mul_left}
use riscv_simulator.Inst.MExtension.{divu, remu, div, rem64}

-- The same for DIVU and REMU.
pub divu-remu : (x y : ℕ) → x < 2 ^ 64 → u64 (divu x y * y + remu x y) ≡ x
unfolding divu remu
divu-remu x y h = ground arith

neg_suc : (x : ℕ) → x < 2 ^ 64 → suc (2 ^ 64 - 1 - x) ≡ 2 ^ 64 - x
neg_suc x h = omega arith

pattern64-pos_neg : (n : ℕ) → n ≤ 2 ^ 64 → pattern64 (sub_ℕ 0 n) ≡ u64 (2 ^ 64 - n)
unfolding pattern64
pattern64-pos_neg n h = ground arith

div-pos_pos : (x y : ℕ) → x < 2 ^ 63 → 0 < y → y < 2 ^ 63 → div x y ≡ u64 (x / y)
unfolding div quot signed64 pattern64
div-pos_pos x y h g k = ground arith

div-neg_pos :
    (x y : ℕ)
    → 2 ^ 63 ≤ x
    → x < 2 ^ 64
    → 0 < y
    → y < 2 ^ 63
    → div x y ≡ u64 (2 ^ 64 - (2 ^ 64 - x) / y)
unfolding div quot signed64
div-neg_pos x y h l g k =
    ground (arith, neg_suc x l, div-le_self (2 ^ 64 - x) y, pattern64-pos_neg ((2 ^ 64 - x) / y))

div-pos_neg :
    (x y : ℕ) → x < 2 ^ 63 → 2 ^ 63 ≤ y → y < 2 ^ 64 → div x y ≡ u64 (2 ^ 64 - x / (2 ^ 64 - y))
unfolding div quot signed64
div-pos_neg x y h l g =
    ground (arith, neg_suc y g, div-le_self x (2 ^ 64 - y), pattern64-pos_neg (x / (2 ^ 64 - y)))

div-neg_neg :
    (x y : ℕ)
    → 2 ^ 63 ≤ x
    → x < 2 ^ 64
    → 2 ^ 63 ≤ y
    → y < 2 ^ 64
    → div x y ≡ u64 ((2 ^ 64 - x) / (2 ^ 64 - y))
unfolding div quot signed64 pattern64
div-neg_neg x y h l g k = ground (arith, neg_suc x l, neg_suc y k)

rem-pos_pos : (x y : ℕ) → x < 2 ^ 63 → 0 < y → y < 2 ^ 63 → rem64 x y ≡ u64 (x % y)
unfolding rem64 rem signed64 pattern64
rem-pos_pos x y h g k = ground arith

rem-neg_pos :
    (x y : ℕ)
    → 2 ^ 63 ≤ x
    → x < 2 ^ 64
    → 0 < y
    → y < 2 ^ 63
    → rem64 x y ≡ u64 (2 ^ 64 - (2 ^ 64 - x) % y)
unfolding rem64 rem signed64
rem-neg_pos x y h l g k = ground (arith, neg_suc x l, pattern64-pos_neg ((2 ^ 64 - x) % y))

rem-pos_neg : (x y : ℕ) → x < 2 ^ 63 → 2 ^ 63 ≤ y → y < 2 ^ 64 → rem64 x y ≡ u64 (x % (2 ^ 64 - y))
unfolding rem64 rem signed64 pattern64
rem-pos_neg x y h l g = ground (arith, neg_suc y g)

rem-neg_neg :
    (x y : ℕ)
    → 2 ^ 63 ≤ x
    → x < 2 ^ 64
    → 2 ^ 63 ≤ y
    → y < 2 ^ 64
    → rem64 x y ≡ u64 (2 ^ 64 - (2 ^ 64 - x) % (2 ^ 64 - y))
unfolding rem64 rem signed64 pattern64
rem-neg_neg x y h l g k =
    ground (arith, neg_suc x l, neg_suc y k, pattern64-pos_neg ((2 ^ 64 - x) % (2 ^ 64 - y)))

mul-complement : (q k : ℕ) → k ≤ 2 ^ 64 → q * (2 ^ 64 - k) + q * k ≡ q * 2 ^ 64
mul-complement q k h = omega (arith, mul-sub q (2 ^ 64) k, mul-le-mul_left q h)

complement-mul : (q y : ℕ) → q ≤ 2 ^ 64 → (2 ^ 64 - q) * y + q * y ≡ 2 ^ 64 * y
complement-mul q y h = omega (arith, mul-complement y q h, mul_comm y (2 ^ 64 - q), mul_comm y q)

quotient : (m y : ℕ) → m / y * y + m % y ≡ m
quotient m y = omega (arith, div-add-mod m y, mul_comm y (m / y))

-- The three ways in which signs come in, on magnitudes.
combine-neg_pos :
    (m q r y : ℕ)
    → m ≤ 2 ^ 64
    → q * y + r ≡ m
    → q ≤ m
    → u64 (u64 (2 ^ 64 - q) * y + u64 (2 ^ 64 - r)) ≡ u64 (2 ^ 64 - m)
combine-neg_pos m zero r y h e l = omega arith
combine-neg_pos m (suc q) r y h e l = ground (arith, complement-mul (suc q) y)

combine-pos_neg :
    (m q r k : ℕ)
    → m < 2 ^ 64
    → k ≤ 2 ^ 64
    → q * k + r ≡ m
    → q ≤ m
    → u64 (u64 (2 ^ 64 - q) * (2 ^ 64 - k) + u64 r) ≡ m
combine-pos_neg m zero r k h g e l = omega arith
combine-pos_neg m (suc q) r k h g e l =
    ground (arith, complement-mul (suc q) (2 ^ 64 - k), mul-complement (suc q) k)

minus_minus : (y : ℕ) → y < 2 ^ 64 → 2 ^ 64 - (2 ^ 64 - y) ≡ y
minus_minus y h = omega arith

combine-neg_neg :
    (m q r k : ℕ)
    → m < 2 ^ 64
    → k ≤ 2 ^ 64
    → q * k + r ≡ m
    → q ≤ m
    → u64 (u64 q * (2 ^ 64 - k) + u64 (2 ^ 64 - r)) ≡ u64 (2 ^ 64 - m)
combine-neg_neg m q r k h g e l = ground (arith, mul-complement q k)

u64-minus_minus : (x : ℕ) → x < 2 ^ 64 → u64 (2 ^ 64 - (2 ^ 64 - x)) ≡ x
u64-minus_minus x h = omega arith

div-zero : (x : ℕ) → x < 2 ^ 64 → u64 (div x 0 * 0 + rem64 x 0) ≡ x
unfolding div rem64
div-zero x h = omega arith

-- The cases by the signs of the operands.
module _ (x y : ℕ) where
  pos_pos : x < 2 ^ 63 → 0 < y → y < 2 ^ 63 → u64 (div x y * y + rem64 x y) ≡ x
  pos_pos h g l =
      ground (arith, div-pos_pos x y h g l, rem-pos_pos x y h g l, quotient x y, div-le_self x y)

  neg_pos : 2 ^ 63 ≤ x → x < 2 ^ 64 → 0 < y → y < 2 ^ 63 → u64 (div x y * y + rem64 x y) ≡ x
  neg_pos h l g k =
      rw (div-neg_pos x y h l g k, rem-neg_pos x y h l g k)
        (omega (
          arith,
          combine-neg_pos (2 ^ 64 - x) ((2 ^ 64 - x) / y) ((2 ^ 64 - x) % y) y (omega arith)
              (quotient (2 ^ 64 - x) y) (div-le_self (2 ^ 64 - x) y),
        ))

  pos_neg : x < 2 ^ 63 → 2 ^ 63 ≤ y → y < 2 ^ 64 → u64 (div x y * y + rem64 x y) ≡ x
  pos_neg h l g =
      let k = 2 ^ 64 - y in
      rw (div-pos_neg x y h l g, rem-pos_neg x y h l g)
        (ap (λ (t : ℕ). u64 (u64 (2 ^ 64 - x / k) * t + u64 (x % k))) (sym (minus_minus y g))
          ∙ combine-pos_neg x (x / k) (x % k) k (omega arith) (omega arith) (quotient x k)
              (div-le_self x k))

  neg_neg : 2 ^ 63 ≤ x → x < 2 ^ 64 → 2 ^ 63 ≤ y → y < 2 ^ 64 → u64 (div x y * y + rem64 x y) ≡ x
  neg_neg h l g i =
      let m = 2 ^ 64 - x in
      let k = 2 ^ 64 - y in
      rw (div-neg_neg x y h l g i, rem-neg_neg x y h l g i)
        (ap (λ (t : ℕ). u64 (u64 (m / k) * t + u64 (2 ^ 64 - m % k))) (sym (minus_minus y i))
          ∙ combine-neg_neg m (m / k) (m % k) k (omega arith) (omega arith) (quotient m k)
              (div-le_self m k)
          ∙ u64-minus_minus x l)

  nonzero : x < 2 ^ 64 → 0 < y → y < 2 ^ 64 → u64 (div x y * y + rem64 x y) ≡ x
  nonzero h p g = elim (Bool-cases (ltb x (2 ^ 63))) [
    | inl t ↦ elim (Bool-cases (ltb y (2 ^ 63))) [
      | inl s ↦ pos_pos (ltb→lt _ _ t) p (ltb→lt _ _ s)
      | inr f ↦ pos_neg (ltb→lt _ _ t) (ltb-false→le _ _ f) g
    ]
    | inr n ↦ elim (Bool-cases (ltb y (2 ^ 63))) [
      | inl s ↦ neg_pos (ltb-false→le _ _ n) h p (ltb→lt _ _ s)
      | inr f ↦ neg_neg (ltb-false→le _ _ n) h (ltb-false→le _ _ f) g
    ]
  ]

-- For any two 64-bit operands, DIV and REM together give the dividend back: quotient times divisor
-- plus remainder is the dividend modulo 2 ^ 64. Division by zero and the overflow of the least
-- integer by -1 are included.
pub div-rem64 : (x y : ℕ) → x < 2 ^ 64 → y < 2 ^ 64 → u64 (div x y * y + rem64 x y) ≡ x
div-rem64 x zero h g = div-zero x h
div-rem64 x (suc y) h g = nonzero x (suc y) h (omega arith) g
