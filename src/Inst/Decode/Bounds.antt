-- ===== src/Inst/Decode/Bounds.antt =====
-- The decoded immediates are 32-bit patterns.
use riscv_simulator.Prelude.{ℕ, ◌^◌, ◌<◌, arith, sra32-lt}
use riscv_simulator.Inst.Decode.{imm_i, imm_s, imm_b, imm_j, imm_u}

pub imm_i-lt : (instruction : ℕ) → imm_i instruction < 2 ^ 32
unfolding imm_i
imm_i-lt instruction = sra32-lt _ 20 (omega arith)

pub imm_s-lt : (instruction : ℕ) → imm_s instruction < 2 ^ 32
unfolding imm_s
imm_s-lt instruction = sra32-lt _ 20 (omega arith)

pub imm_b-lt : (instruction : ℕ) → imm_b instruction < 2 ^ 32
unfolding imm_b
imm_b-lt instruction = sra32-lt _ 19 (omega arith)

pub imm_j-lt : (instruction : ℕ) → imm_j instruction < 2 ^ 32
unfolding imm_j
imm_j-lt instruction = sra32-lt _ 11 (omega arith)

pub imm_u-lt : (instruction : ℕ) → imm_u instruction < 2 ^ 32
unfolding imm_u
imm_u-lt instruction = sra32-lt _ 12 (omega arith)
