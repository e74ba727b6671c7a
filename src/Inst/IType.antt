-- ===== src/Inst/IType.antt =====
-- src/i_inst.c: arithmetic with an immediate.
pub mod Shift
pub mod Valid
use riscv_simulator.Prelude.{ℕ, ◌+◌, bit_and, bit_or, bit_xor, ltb, ◌==◌, if◌then◌else◌, u64, shl64}
use riscv_simulator.Prelude.{◌>>>◌, sra64, sext32, slt64}
use riscv_simulator.Defs.{
  rd_field, funct3_field, rs1_field, funct3_addi, funct3_slli, funct3_slti, funct3_sltiu,
  funct3_xori, funct3_srli_srai, funct3_ori, funct3_andi, funct7_srli, funct7_srai,
}
use riscv_simulator.State.{Cpu, set_register}
use riscv_simulator.Inst.Decode.{imm_i}

-- The `switch`, with the fields as arguments; the immediate is an `int32_t` and is widened with its
-- sign where it meets a register.
unfoldable pub i_type : Cpu → ℕ → ℕ → ℕ → ℕ → Cpu
i_type cpu rd funct3 rs1 imm =
    let x = cpu.registers rs1 in
    if funct3 == funct3_addi
    then set_register cpu rd (u64 (x + sext32 imm))
    else if funct3 == funct3_slli
    then set_register cpu rd (shl64 x (bit_and imm 0x3F))
    else if funct3 == funct3_slti
    then set_register cpu rd (if slt64 x (sext32 imm) then 1 else 0)
    else if funct3 == funct3_sltiu
    then set_register cpu rd (if ltb x (sext32 imm) then 1 else 0)
    else if funct3 == funct3_xori
    then set_register cpu rd (bit_xor x (sext32 imm))
    else if funct3 == funct3_srli_srai
    then (if bit_and imm 0x200 == funct7_srli
        then set_register cpu rd (x >>> bit_and imm 0x3F)
        else if bit_and imm 0x200 == funct7_srai
        then set_register cpu rd (sra64 x (bit_and imm 0x3F))
        else cpu)
    else if funct3 == funct3_ori
    then set_register cpu rd (bit_or x (sext32 imm))
    else if funct3 == funct3_andi
    then set_register cpu rd (bit_and x (sext32 imm))
    else cpu

unfoldable pub execute_i_type_instruction : Cpu → ℕ → Cpu
execute_i_type_instruction cpu instruction =
    i_type cpu (rd_field instruction) (funct3_field instruction) (rs1_field instruction)
      (imm_i instruction)
