-- ===== src/Inst/Decode.antt =====
-- The fields and the immediates as the handlers of src/*_inst.c compute them. An `int32_t` immediate
-- is its 32-bit pattern.
pub mod Bounds
pub mod RoundTrip
use riscv_simulator.Prelude.{ℕ, bit_and, bit_or, shl32, sra32, ◌>>>◌}

-- `(instruction >> 7) & 0x1F` and its kin.
unfoldable pub rd_of : ℕ → ℕ
rd_of instruction = bit_and (instruction >>> 7) 0x1F

unfoldable pub funct3_of : ℕ → ℕ
funct3_of instruction = bit_and (instruction >>> 12) 0x7

unfoldable pub rs1_of : ℕ → ℕ
rs1_of instruction = bit_and (instruction >>> 15) 0x1F

unfoldable pub rs2_of : ℕ → ℕ
rs2_of instruction = bit_and (instruction >>> 20) 0x1F

unfoldable pub funct7_of : ℕ → ℕ
funct7_of instruction = bit_and (instruction >>> 25) 0x7F

-- `(int32_t)((instruction >> 20) << 20) >> 20`, of I-type instructions, loads and JALR.
unfoldable pub imm_i : ℕ → ℕ
imm_i instruction = sra32 (shl32 (instruction >>> 20) 20) 20

-- Stores: the sign extension is written twice.
unfoldable pub imm_s : ℕ → ℕ
imm_s instruction =
    let fields = bit_or (shl32 (instruction >>> 25) 5) (bit_and (instruction >>> 7) 0x1F) in
    let imm = sra32 (shl32 fields 20) 20 in sra32 (shl32 imm 20) 20

-- Branches.
unfoldable pub imm_b : ℕ → ℕ
imm_b instruction =
    let imm =
      bit_or
        (bit_or
          (bit_or (shl32 (instruction >>> 31) 12) (shl32 (bit_and (instruction >>> 7) 0x1) 11))
          (shl32 (bit_and (instruction >>> 25) 0x3F) 5))
        (shl32 (bit_and (instruction >>> 8) 0xF) 1) in
    sra32 (shl32 imm 19) 19

-- JAL.
unfoldable pub imm_j : ℕ → ℕ
imm_j instruction =
    let imm =
      bit_or
        (bit_or
          (bit_or (shl32 (instruction >>> 31) 20) (shl32 (bit_and (instruction >>> 21) 0x3FF) 1))
          (shl32 (bit_and (instruction >>> 20) 0x1) 11))
        (shl32 (bit_and (instruction >>> 12) 0xFF) 12) in
    sra32 (shl32 imm 11) 11

-- AUIPC: `(int32_t) ((instruction >> 12) << 12) >> 12`.
unfoldable pub imm_u : ℕ → ℕ
imm_u instruction = sra32 (shl32 (instruction >>> 12) 12) 12
