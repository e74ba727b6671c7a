-- ===== src/Inst/Decode/RoundTrip.antt =====
-- The immediates against the instruction formats of the ISA.
use riscv_simulator.Prelude.{
  ℕ, ◌≡◌, ◌+◌, ◌-◌, ◌*◌, ◌/◌, ◌%◌, ◌^◌, ◌<◌, arith, bit_and, bit_or, shl32, sra32, ◌>>>◌, ltb,
  if◌then◌else◌,
}
use riscv_simulator.Prelude.{bit_and-mask, bit_or-add, bit_or-split, ap, ◌∙◌}
use native.Mathlib.Nat.{add-mul}
use riscv_simulator.Inst.Decode.{imm_i, imm_s, imm_b, imm_j}

-- The formats: the value of an instruction word from its fields, with a signed immediate of the ISA as
-- a number below 2 ^ w.
abbrev pub encode_i : ℕ → ℕ → ℕ → ℕ → ℕ → ℕ
encode_i op rd funct3 rs1 imm = op + rd * 2 ^ 7 + funct3 * 2 ^ 12 + rs1 * 2 ^ 15 + imm * 2 ^ 20

abbrev pub encode_s : ℕ → ℕ → ℕ → ℕ → ℕ → ℕ
encode_s op funct3 rs1 rs2 imm =
    op + imm % 2 ^ 5 * 2 ^ 7 + funct3 * 2 ^ 12 + rs1 * 2 ^ 15 + rs2 * 2 ^ 20 + imm / 2 ^ 5 * 2 ^ 25

abbrev pub encode_b : ℕ → ℕ → ℕ → ℕ → ℕ → ℕ
encode_b op funct3 rs1 rs2 imm =
    op
    + imm / 2 ^ 11 % 2 * 2 ^ 7
    + imm / 2 % 2 ^ 4 * 2 ^ 8
    + funct3 * 2 ^ 12
    + rs1 * 2 ^ 15
    + rs2 * 2 ^ 20
    + imm / 2 ^ 5 % 2 ^ 6 * 2 ^ 25
    + imm / 2 ^ 12 * 2 ^ 31

abbrev pub encode_j : ℕ → ℕ → ℕ → ℕ
encode_j op rd imm =
    op
    + rd * 2 ^ 7
    + imm / 2 ^ 12 % 2 ^ 8 * 2 ^ 12
    + imm / 2 ^ 11 % 2 * 2 ^ 20
    + imm / 2 % 2 ^ 10 * 2 ^ 21
    + imm / 2 ^ 20 * 2 ^ 31

-- An immediate of `w` bits as the pattern of an `int32_t`.
abbrev pub sign_extend : ℕ → ℕ → ℕ
sign_extend w imm = if ltb imm (2 ^ (w - 1)) then imm else imm + (2 ^ 32 - 2 ^ w)

-- The sign extension of the code, a shift up and an arithmetic shift down.
extend_s : (x : ℕ) → x < 2 ^ 12 → sra32 (shl32 x 20) 20 ≡ sign_extend 12 x
unfolding sra32
extend_s x h = ground arith

extend_again : (x : ℕ) → x < 2 ^ 12 → sra32 (shl32 (sign_extend 12 x) 20) 20 ≡ sign_extend 12 x
unfolding sra32
extend_again x h = ground arith

extend_b : (x : ℕ) → x < 2 ^ 13 → sra32 (shl32 x 19) 19 ≡ sign_extend 13 x
unfolding sra32
extend_b x h = ground arith

extend_j : (x : ℕ) → x < 2 ^ 21 → sra32 (shl32 x 11) 11 ≡ sign_extend 21 x
unfolding sra32
extend_j x h = ground arith

-- The handlers of OP-IMM, loads and JALR read back the immediate of an I-type word.
pub imm_i-encode_i :
    (op rd funct3 rs1 imm : ℕ)
    → op < 2 ^ 7
    → rd < 2 ^ 5
    → funct3 < 2 ^ 3
    → rs1 < 2 ^ 5
    → imm < 2 ^ 12
    → imm_i (encode_i op rd funct3 rs1 imm) ≡ sign_extend 12 imm
unfolding imm_i sra32
imm_i-encode_i op rd funct3 rs1 imm a b c d e = ground arith

s_fields :
    (w imm : ℕ)
    → w >>> 25 ≡ imm / 2 ^ 5
    → (w >>> 7) % 2 ^ 5 ≡ imm % 2 ^ 5
    → imm < 2 ^ 12
    → bit_or (shl32 (w >>> 25) 5) (bit_and (w >>> 7) 0x1F) ≡ imm
s_fields w imm h l g =
    ground (arith, bit_and-mask 5 (w >>> 7), bit_or-add 5 (shl32 (w >>> 25) 5) (imm % 2 ^ 5))

-- The store handler reads back the immediate of an S-type word, though it extends its sign twice.
pub imm_s-encode_s :
    (op funct3 rs1 rs2 imm : ℕ)
    → op < 2 ^ 7
    → funct3 < 2 ^ 3
    → rs1 < 2 ^ 5
    → rs2 < 2 ^ 5
    → imm < 2 ^ 12
    → imm_s (encode_s op funct3 rs1 rs2 imm) ≡ sign_extend 12 imm
unfolding imm_s
imm_s-encode_s op funct3 rs1 rs2 imm a b c d e =
    let w = encode_s op funct3 rs1 rs2 imm in
    rw (s_fields w imm (omega arith) (omega arith) e, extend_s imm e) (extend_again imm e)

join-two : (k a r x y : ℕ) → a ≡ x → r ≡ y → x % 2 ^ k ≡ 0 → y < 2 ^ k → bit_or a r ≡ x + y
join-two k a r x y h g i l =
    ap (λ (t : ℕ). bit_or t r) h ∙ ap (λ (t : ℕ). bit_or x t) g ∙ bit_or-add k x y i l

b_fields :
    (w imm : ℕ)
    → w >>> 31 ≡ imm / 2 ^ 12
    → (w >>> 7) % 2 ≡ imm / 2 ^ 11 % 2
    → (w >>> 25) % 2 ^ 6 ≡ imm / 2 ^ 5 % 2 ^ 6
    → (w >>> 8) % 2 ^ 4 ≡ imm / 2 % 2 ^ 4
    → imm < 2 ^ 13
    → imm % 2 ≡ 0
    → bit_or
        (bit_or
          (bit_or (shl32 (w >>> 31) 12) (shl32 (bit_and (w >>> 7) 0x1) 11))
          (shl32 (bit_and (w >>> 25) 0x3F) 5))
        (shl32 (bit_and (w >>> 8) 0xF) 1)
      ≡ imm
b_fields w imm h i j k g l =
    join-two 5 _ _ (imm / 2 ^ 5 * 2 ^ 5) (imm / 2 % 2 ^ 4 * 2)
      (join-two 11 _ _ (imm / 2 ^ 11 * 2 ^ 11) (imm / 2 ^ 5 % 2 ^ 6 * 2 ^ 5)
          (join-two 12 _ _ (imm / 2 ^ 12 * 2 ^ 12) (imm / 2 ^ 11 % 2 * 2 ^ 11) (omega arith)
              (omega (arith, bit_and-mask 1 (w >>> 7))) (omega arith) (omega arith)
            ∙ omega arith)
          (omega (arith, bit_and-mask 6 (w >>> 25))) (omega arith) (omega arith)
        ∙ omega arith)
      (omega (arith, bit_and-mask 4 (w >>> 8))) (omega arith) (omega arith)
    ∙ omega arith

-- The branch handler reads back the even immediate of a B-type word.
pub imm_b-encode_b :
    (op funct3 rs1 rs2 imm : ℕ)
    → op < 2 ^ 7
    → funct3 < 2 ^ 3
    → rs1 < 2 ^ 5
    → rs2 < 2 ^ 5
    → imm < 2 ^ 13
    → imm % 2 ≡ 0
    → imm_b (encode_b op funct3 rs1 rs2 imm) ≡ sign_extend 13 imm
unfolding imm_b
imm_b-encode_b op funct3 rs1 rs2 imm a b c d e f =
    let w = encode_b op funct3 rs1 rs2 imm in
    rw (b_fields w imm (omega arith) (omega arith) (omega arith) (omega arith) e f) (extend_b imm e)

-- A field between an upper part and a lower part.
insert :
    (k a r q low m n : ℕ)
    → a ≡ q * 2 ^ k + low
    → r ≡ m * 2 ^ k
    → low < 2 ^ k
    → q % 2 ^ n ≡ 0
    → m < 2 ^ n
    → bit_or a r ≡ q * 2 ^ k + (low + m * 2 ^ k)
insert k a r q low m n h g i j l =
    ap (λ (t : ℕ). bit_or t r) h
    ∙ ap (λ (t : ℕ). bit_or (q * 2 ^ k + low) t) {y = m * 2 ^ k + 0} (omega (arith, g))
    ∙ bit_or-split k q m low 0 i (omega arith)
    ∙ ap (λ (t : ℕ). t * 2 ^ k + bit_or low 0) (bit_or-add n q m j l)
    ∙ omega (arith, bit_or-add 0 low 0 (omega arith) (omega arith), add-mul q m (2 ^ k))

j_fields :
    (w imm : ℕ)
    → w >>> 31 ≡ imm / 2 ^ 20
    → (w >>> 21) % 2 ^ 10 ≡ imm / 2 % 2 ^ 10
    → (w >>> 20) % 2 ≡ imm / 2 ^ 11 % 2
    → (w >>> 12) % 2 ^ 8 ≡ imm / 2 ^ 12 % 2 ^ 8
    → imm < 2 ^ 21
    → imm % 2 ≡ 0
    → bit_or
        (bit_or
          (bit_or (shl32 (w >>> 31) 20) (shl32 (bit_and (w >>> 21) 0x3FF) 1))
          (shl32 (bit_and (w >>> 20) 0x1) 11))
        (shl32 (bit_and (w >>> 12) 0xFF) 12)
      ≡ imm
j_fields w imm h i j k g l =
    let q = imm / 2 ^ 20 in
    let low = imm / 2 % 2 ^ 10 * 2 in
    let b = imm / 2 ^ 11 % 2 in
    let m = imm / 2 ^ 12 % 2 ^ 8 in
    ap
      (λ (t : ℕ).
        bit_or (bit_or t (shl32 (bit_and (w >>> 20) 0x1) 11)) (shl32 (bit_and (w >>> 12) 0xFF) 12))
      (join-two 20 _ _ (q * 2 ^ 20) low (omega arith) (omega (arith, bit_and-mask 10 (w >>> 21)))
        (omega arith) (omega arith))
    ∙ ap (λ (t : ℕ). bit_or t (shl32 (bit_and (w >>> 12) 0xFF) 12))
        (insert 11 _ _ (q * 2 ^ 9) low b 9 (omega arith) (omega (arith, bit_and-mask 1 (w >>> 20)))
          (omega arith) (omega arith) (omega arith))
    ∙ insert 12 _ _ (q * 2 ^ 8) (low + b * 2 ^ 11) m 8 (omega arith)
        (omega (arith, bit_and-mask 8 (w >>> 12))) (omega arith) (omega arith) (omega arith)
    ∙ omega arith

-- JAL reads back the even immediate of a J-type word.
pub imm_j-encode_j :
    (op rd imm : ℕ)
    → op < 2 ^ 7
    → rd < 2 ^ 5
    → imm < 2 ^ 21
    → imm % 2 ≡ 0
    → imm_j (encode_j op rd imm) ≡ sign_extend 21 imm
unfolding imm_j
imm_j-encode_j op rd imm a b e f =
    let w = encode_j op rd imm in
    rw (j_fields w imm (omega arith) (omega arith) (omega arith) (omega arith) e f) (extend_j imm e)
