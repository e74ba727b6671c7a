-- ===== src/Disassemble/Jump.antt =====
-- src/disassemble.c: dis_jal, dis_branch and the case of JALR. A target is the `uint64_t`
-- that `%x` or `%d` is handed.
use riscv_simulator.Prelude.{
  ℕ, bit_and, bit_or, shl32, sra32, ◌>>>◌, [], ◌∷◌, ◌==◌, if◌then◌else◌, ◌+◌, u64, sext32, ◌&&◌,
}
use riscv_simulator.Defs.{funct3_beq, funct3_bge, funct3_bgeu, funct3_blt, funct3_bltu, funct3_bne}
use riscv_simulator.Inst.Decode.{imm_i}
use riscv_simulator.Disassemble.Text.{Output, snprintf, reg, regs_word, regs_long, reg_offset}
use riscv_simulator.Disassemble.Text.Arg.{word, long}

-- `imm` of dis_jal.
unfoldable pub jal_imm : ℕ → ℕ
jal_imm instruction =
    let imm =
      bit_or
        (bit_or
          (bit_or (shl32 (instruction >>> 31) 20) (shl32 (bit_and (instruction >>> 21) 0x3FF) 1))
          (shl32 (bit_and (instruction >>> 20) 0x1) 11))
        (shl32 (bit_and (instruction >>> 12) 0xFF) 12) in
    sra32 (shl32 imm 11) 11

unfoldable pub dis_jal : ℕ → ℕ → ℕ → ℕ → Output
dis_jal address instruction buffer_size rd =
    let target = u64 (sext32 (jal_imm instruction) + address) in
    if rd == 0
    then snprintf buffer_size "j 0x%x" (long target ∷ [])
    else if rd == 1
    then snprintf buffer_size "jal 0x%x" (long target ∷ [])
    else snprintf buffer_size "jal %s, %d" (reg rd ∷ long target ∷ [])

-- `imm` of dis_branch.
unfoldable pub branch_imm : ℕ → ℕ
branch_imm instruction =
    let imm =
      bit_or
        (bit_or
          (bit_or (shl32 (instruction >>> 31) 12) (shl32 (bit_and (instruction >>> 7) 0x1) 11))
          (shl32 (bit_and (instruction >>> 25) 0x3F) 5))
        (shl32 (bit_and (instruction >>> 8) 0xF) 1) in
    sra32 (shl32 imm 19) 19

unfoldable pub dis_branch : ℕ → ℕ → ℕ → ℕ → ℕ → ℕ → Output
dis_branch address instruction buffer_size funct3 rs1 rs2 =
    let imm = branch_imm instruction in
    let target = u64 (address + sext32 imm) in
    if funct3 == funct3_beq
    then if rs2 == 0
      then snprintf buffer_size "beqz %s, 0x%x" (reg rs1 ∷ long target ∷ [])
      else snprintf buffer_size "beq %s, %s, %d" (regs_word rs1 rs2 imm)
    else if funct3 == funct3_bne
    then if rs2 == 0
      then snprintf buffer_size "bnez %s, 0x%x" (reg rs1 ∷ long target ∷ [])
      else snprintf buffer_size "bne %s, %s, 0x%x" (regs_long rs1 rs2 target)
    else if funct3 == funct3_blt
    then snprintf buffer_size "blt %s, %s, 0x%x" (regs_long rs1 rs2 target)
    else if funct3 == funct3_bge
    then snprintf buffer_size "bge %s, %s, 0x%x" (regs_long rs1 rs2 target)
    else if funct3 == funct3_bltu
    then snprintf buffer_size "bltu %s, %s, 0x%x" (regs_long rs1 rs2 target)
    else if funct3 == funct3_bgeu
    then snprintf buffer_size "bgeu %s, %s, 0x%x" (regs_long rs1 rs2 target)
    else snprintf buffer_size "unknown B-type instruction: 0x%08x" (word instruction ∷ [])

-- The case OPCODE_JALR of disassemble.
unfoldable pub dis_jalr : ℕ → ℕ → ℕ → ℕ → Output
dis_jalr instruction buffer_size rd rs1 =
    let imm = imm_i instruction in
    if imm == 0 && rs1 == 1 && rd == 0
    then snprintf buffer_size "ret" []
    else snprintf buffer_size "jalr %s, %d(%s)" (reg_offset rd imm rs1)
