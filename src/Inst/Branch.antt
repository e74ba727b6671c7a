-- ===== src/Inst/Branch.antt =====
-- src/b_inst.c: conditional branches. They set the program counter themselves.
pub mod Valid
use riscv_simulator.Prelude.{ℕ, Bool, false, not, ◌+◌, ltb, ◌==◌, ◌!=◌, if◌then◌else◌, u64}
use riscv_simulator.Prelude.{sext32, slt64}
use riscv_simulator.Defs.{funct3_beq, funct3_bne, funct3_blt, funct3_bge, funct3_bltu, funct3_bgeu}
use riscv_simulator.State.{Cpu}
use riscv_simulator.Inst.Decode.{funct3_of, rs1_of, rs2_of, imm_b}

-- The condition that each case tests; no case, no jump.
unfoldable pub taken : ℕ → ℕ → ℕ → Bool
taken funct3 x y =
    if funct3 == funct3_beq
    then x == y
    else if funct3 == funct3_bne
    then x != y
    else if funct3 == funct3_blt
    then slt64 x y
    else if funct3 == funct3_bge
    then not (slt64 x y)
    else if funct3 == funct3_bltu
    then ltb x y
    else if funct3 == funct3_bgeu
    then not (ltb x y)
    else false

unfoldable pub execute_b_type_instruction : Cpu → ℕ → Cpu
execute_b_type_instruction cpu instruction =
    let x = cpu.registers (rs1_of instruction) in
    let y = cpu.registers (rs2_of instruction) in
    record cpu {
      pc =
          if taken (funct3_of instruction) x y
          then u64 (cpu.pc + sext32 (imm_b instruction))
          else u64 (cpu.pc + 4);
    }
