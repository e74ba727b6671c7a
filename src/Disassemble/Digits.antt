-- ===== src/Disassemble/Digits.antt =====
-- What `%x` and `%d` show for src/disassemble.c and src/display.c, read back: the count of digits in Render is enough.
use riscv_simulator.Prelude.{
  ℕ, zero, suc, ◌≡◌, ◌⊎◌, ap, ◌<◌, ◌∙◌, refl, ◌+◌, ◌-◌, ◌*◌, ◌/◌, ◌%◌, ◌^◌, ltb, ◌==◌,
  if◌then◌else◌, List, [], ◌∷◌, arith, Bool-cases, inl, inr,
}
use riscv_simulator.Disassemble.Render.{digit_byte, digits, hexadecimal}

unfoldable pub digit_value : ℕ → ℕ
digit_value c = if ltb c b'a' then c - b'0' else c - b'a' + 10

-- The number that a text of digits continues.
unfoldable pub value : ℕ → ℕ → List ℕ → ℕ
value base n [] = n
value base n (c ∷ s) = value base (n * base + digit_value c) s

abbrev IsBase : ℕ → Type 0
IsBase base = (base ≡ 10) ⊎ (base ≡ 16)

last_digit : (base n : ℕ) → IsBase base → n / base * base + digit_value (digit_byte (n % base)) ≡ n
unfolding digit_value digit_byte
last_digit base n (inl h) = rw h (ground arith)
last_digit base n (inr h) = rw h (ground arith)

fits : (base count n : ℕ) → IsBase base → n < base ^ suc count → n / base < base ^ count
fits base count n (inl h) = rw h (λ g. omega (arith, g))
fits base count n (inr h) = rw h (λ g. omega (arith, g))

none_left : (base n : ℕ) → IsBase base → n < base ^ 0 → 0 ≡ n
none_left base n (inl h) = rw h (λ g. omega (arith, g))
none_left base n (inr h) = rw h (λ g. omega (arith, g))

value-digits :
    (base count n : ℕ) (out : List ℕ)
    → IsBase base
    → n < base ^ count
    → value base 0 (digits base count n out) ≡ value base n out
unfolding value digits
value-digits base zero n out is_base h = ap (λ m. value base m out) (none_left base n is_base h)
value-digits base (suc count) n out is_base h =
    let whole = ap (λ m. value base m out) (last_digit base n is_base) in
    let rest =
      value-digits base count (n / base) (digit_byte (n % base) ∷ out) is_base
        (fits base count n is_base h) in
    elim (Bool-cases (n / base == 0)) [
      | inl done ↦ rw done (
          ap (λ m. value base (m * base + digit_value (digit_byte (n % base))) out)
            (ground (arith, done))
          ∙ whole)
      | inr more ↦ rw more (rest ∙ whole)
    ]

-- What `%x` shows is the number's low 32 bits.
value-hexadecimal : (n : ℕ) → value 16 0 (hexadecimal n) ≡ n % 2 ^ 32
unfolding hexadecimal value
value-hexadecimal n = value-digits 16 8 (n % 2 ^ 32) [] (inr refl) (omega arith)

-- Ten decimal digits hold what `%d` shows of a number of 32 bits or of its negation.
value-decimal_digits : (m : ℕ) → m < 2 ^ 32 → value 10 0 (digits 10 10 m []) ≡ m
unfolding value
value-decimal_digits m h = value-digits 10 10 m [] (inl refl) (omega (arith, h))
