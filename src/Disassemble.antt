-- ===== src/Disassemble.antt =====
-- src/disassemble.c: disassemble. Its components name the registers and print one group of opcodes each.
pub mod Names
pub mod Text
pub mod Register
pub mod Immediate
pub mod Memory
pub mod Jump
pub mod System
pub mod Extension
pub mod Formats
pub mod Fields
pub mod Render
pub mod Digits
pub mod Silent
pub mod Targets
pub mod Printable
use riscv_simulator.Prelude.{ℕ, Bool, bit_and, ◌>>>◌, ◌==◌, if◌then◌else◌, none, [], ◌∷◌}
use riscv_simulator.Defs.{
  opcode_op_imm, opcode_op, opcode_load, opcode_store, opcode_lui, opcode_auipc, opcode_op_imm_32,
  opcode_op_32, opcode_branch, opcode_jal, opcode_jalr, opcode_misc_mem, opcode_system, opcode_amo,
  opcode_op_fp,
}
use riscv_simulator.Inst.Decode.{rd_of, funct3_of, rs1_of, rs2_of, funct7_of}
use Names.{CsrNames}
use Text.{Output, snprintf, reg}
use Text.Arg.{word}
use Register.{dis_op, dis_op_32}
use Immediate.{dis_op_imm, dis_op_imm_32}
use Memory.{dis_load, dis_store}
use Jump.{dis_jal, dis_branch, dis_jalr}
use System.{dis_misc_mem, dis_system}
use Extension.{dis_amo, dis_op_fp}

-- The chain of tests on the opcode. LUI and AUIPC print the upper 20 bits in place.
unfoldable pub dis_opcode : CsrNames → ℕ → ℕ → ℕ → ℕ → Output
dis_opcode names opcode address instruction buffer_size =
    let rd = rd_of instruction in
    let funct3 = funct3_of instruction in
    let rs1 = rs1_of instruction in
    let rs2 = rs2_of instruction in
    let funct7 = funct7_of instruction in
    let imm = instruction >>> 20 in
    let shamt = bit_and (instruction >>> 20) 0x1F in
    let upper = bit_and instruction 0xFFFFF000 in
    if opcode == opcode_op_imm
    then dis_op_imm instruction buffer_size rd funct3 rs1 funct7 shamt
    else if opcode == opcode_op
    then dis_op instruction buffer_size rd funct3 rs1 rs2 funct7
    else if opcode == opcode_load
    then dis_load instruction buffer_size rd funct3 rs1
    else if opcode == opcode_store
    then dis_store instruction buffer_size funct3 rs1 rs2
    else if opcode == opcode_lui
    then snprintf buffer_size "lui %s, 0x%x" (reg rd ∷ word upper ∷ [])
    else if opcode == opcode_auipc
    then snprintf buffer_size "auipc %s, 0x%x" (reg rd ∷ word upper ∷ [])
    else if opcode == opcode_op_imm_32
    then dis_op_imm_32 instruction buffer_size rd funct3 rs1 funct7 imm shamt
    else if opcode == opcode_op_32
    then dis_op_32 instruction buffer_size rd funct3 rs1 rs2 funct7
    else if opcode == opcode_branch
    then dis_branch address instruction buffer_size funct3 rs1 rs2
    else if opcode == opcode_jal
    then dis_jal address instruction buffer_size rd
    else if opcode == opcode_jalr
    then dis_jalr instruction buffer_size rd rs1
    else if opcode == opcode_misc_mem
    then dis_misc_mem instruction buffer_size funct3
    else if opcode == opcode_system
    then dis_system names instruction buffer_size rd funct3 rs1 rs2
    else if opcode == opcode_amo
    then dis_amo instruction buffer_size rd funct3 rs1 rs2
    else if opcode == opcode_op_fp
    then dis_op_fp instruction buffer_size rd funct3 rs1 rs2
    else snprintf buffer_size "unknown instruction: 0x%08x" (word instruction ∷ [])

-- `is_null`: the caller's buffer is a null pointer.
unfoldable pub disassemble : CsrNames → ℕ → ℕ → Bool → ℕ → Output
disassemble names address instruction is_null buffer_size =
    if is_null
    then none
    else dis_opcode names (bit_and instruction 0x7F) address instruction buffer_size
