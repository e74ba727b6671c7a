-- ===== src/Examples/Arithmetic.antt =====
-- The theorems on results and immediates, at concrete words.
use riscv_simulator.Prelude.{
  ◌≡◌, ◌+◌, ◌-◌, ◌*◌, ◌%◌, ◌^◌, arith, u64, bit, pattern128, signed64, ◌*ℤ◌,
}
use riscv_simulator.Prelude.{◌/◌}
use riscv_simulator.State.{set_register}
use riscv_simulator.Inst.IType.{i_type}
use riscv_simulator.Inst.IType.Shift.{i_type-shift}
use riscv_simulator.Inst.MExtension.{div, rem64, divu, remu, mul, mulh, mulhu}
use riscv_simulator.Inst.MExtension.Division.{div-rem64, divu-remu}
use riscv_simulator.Inst.MExtension.Product.{mulhu-mul, mulh-mul}
use riscv_simulator.Inst.Decode.{imm_i, imm_s, imm_b, imm_j}
use riscv_simulator.Inst.Decode.RoundTrip.{
  encode_i, encode_s, encode_b, encode_j, sign_extend, imm_i-encode_i, imm_s-encode_s,
  imm_b-encode_b, imm_j-encode_j,
}
use riscv_simulator.Examples.States.{blank}

-- -7 by 2.
div-rem64_example : u64 (div (2 ^ 64 - 7) 2 * 2 + rem64 (2 ^ 64 - 7) 2) ≡ 2 ^ 64 - 7
div-rem64_example = div-rem64 (2 ^ 64 - 7) 2 (omega arith) (omega arith)

divu-remu_example : u64 (divu 7 0 * 0 + remu 7 0) ≡ 7
divu-remu_example = divu-remu 7 0 (omega arith)

mulhu-mul_example : mulhu (2 ^ 64 - 7) 2 * 2 ^ 64 + mul (2 ^ 64 - 7) 2 ≡ (2 ^ 64 - 7) * 2
mulhu-mul_example = mulhu-mul (2 ^ 64 - 7) 2 (omega arith) (omega arith)

mulh-mul_example :
    mulh (2 ^ 64 - 7) 2 * 2 ^ 64 + mul (2 ^ 64 - 7) 2
    ≡ pattern128 (signed64 (2 ^ 64 - 7) *ℤ signed64 2)
mulh-mul_example = mulh-mul (2 ^ 64 - 7) 2

-- `addi x1, x2, -3`, `sd x2, -8(x1)`, `beq x1, x2, -4` and `jal x1, -2048`.
imm_i-encode_i_example : imm_i (encode_i 0x13 1 0 2 4093) ≡ sign_extend 12 4093
imm_i-encode_i_example =
    imm_i-encode_i 0x13 1 0 2 4093 (omega arith) (omega arith) (omega arith) (omega arith)
      (omega arith)

imm_s-encode_s_example : imm_s (encode_s 0x23 3 1 2 4088) ≡ sign_extend 12 4088
imm_s-encode_s_example =
    imm_s-encode_s 0x23 3 1 2 4088 (omega arith) (omega arith) (omega arith) (omega arith)
      (omega arith)

imm_b-encode_b_example : imm_b (encode_b 0x63 0 1 2 8188) ≡ sign_extend 13 8188
imm_b-encode_b_example =
    imm_b-encode_b 0x63 0 1 2 8188 (omega arith) (omega arith) (omega arith) (omega arith)
      (omega arith) (omega arith)

imm_j-encode_j_example : imm_j (encode_j 0x6F 1 2095104) ≡ sign_extend 21 2095104
imm_j-encode_j_example =
    imm_j-encode_j 0x6F 1 2095104 (omega arith) (omega arith) (omega arith) (omega arith)

-- `srai x1, x2, 4` runs as `srli x1, x2, 4`.
i_type-shift_example :
    ((bit 0x404 9 ≡ 0)
      → i_type blank 1 0x5 2 0x404 ≡ set_register blank 1 (blank.registers 2 / 2 ^ (0x404 % 64)))
    × ((bit 0x404 9 ≡ 1) → i_type blank 1 0x5 2 0x404 ≡ blank)
i_type-shift_example = i_type-shift blank 1 2 0x404
