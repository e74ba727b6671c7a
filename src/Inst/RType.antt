-- ===== src/Inst/RType.antt =====
-- src/r_inst.c: arithmetic on registers.
pub mod Valid
use riscv_simulator.Prelude.{ℕ, ◌+◌, bit_and, bit_or, bit_xor, ltb, ◌==◌, if◌then◌else◌, u64, shl64}
use riscv_simulator.Prelude.{◌>>>◌, sub64, sra64, slt64}
use riscv_simulator.Defs.{
  rd_field, funct3_field, rs1_field, rs2_field, funct7_field, funct3_add_sub, funct3_sll,
  funct3_slt, funct3_sltu, funct3_xor, funct3_srl_sra, funct3_or, funct3_and, funct7_add,
  funct7_sub, funct7_srl, funct7_sra, funct7_m,
}
use riscv_simulator.State.{Cpu, set_register}
use riscv_simulator.Inst.MExtension.{execute_m_extension_instruction}

-- The `switch`, with the fields as arguments.
unfoldable pub r_type : Cpu → ℕ → ℕ → ℕ → ℕ → ℕ → Cpu
r_type cpu rd funct3 rs1 rs2 funct7 =
    let x = cpu.registers rs1 in
    let y = cpu.registers rs2 in
    if funct3 == funct3_add_sub
    then (if funct7 == funct7_add
        then set_register cpu rd (u64 (x + y))
        else if funct7 == funct7_sub
        then set_register cpu rd (sub64 x y)
        else cpu)
    else if funct3 == funct3_sll
    then set_register cpu rd (shl64 x (bit_and y 0x3F))
    else if funct3 == funct3_slt
    then set_register cpu rd (if slt64 x y then 1 else 0)
    else if funct3 == funct3_sltu
    then set_register cpu rd (if ltb x y then 1 else 0)
    else if funct3 == funct3_xor
    then set_register cpu rd (bit_xor x y)
    else if funct3 == funct3_srl_sra
    then (if funct7 == funct7_srl
        then set_register cpu rd (x >>> bit_and y 0x3F)
        else if funct7 == funct7_sra
        then set_register cpu rd (sra64 x (bit_and y 0x3F))
        else cpu)
    else if funct3 == funct3_or
    then set_register cpu rd (bit_or x y)
    else if funct3 == funct3_and
    then set_register cpu rd (bit_and x y)
    else cpu

unfoldable pub execute_r_type_instruction : Cpu → ℕ → Cpu
execute_r_type_instruction cpu instruction =
    if funct7_field instruction == funct7_m
    then execute_m_extension_instruction cpu instruction
    else r_type cpu (rd_field instruction) (funct3_field instruction) (rs1_field instruction)
        (rs2_field instruction) (funct7_field instruction)
