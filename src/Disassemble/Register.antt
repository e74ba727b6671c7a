-- ===== src/Disassemble/Register.antt =====
-- src/disassemble.c: dis_op and dis_op_32, the instructions on registers.
use riscv_simulator.Prelude.{ℕ, [], ◌∷◌, ◌==◌, if◌then◌else◌, none}
use riscv_simulator.Defs.{
  funct3_div, funct3_divu, funct3_mul, funct3_mulh, funct3_mulhsu, funct3_mulhu, funct3_rem,
  funct3_remu, funct7_m,
}
use riscv_simulator.Disassemble.Text.{Output, snprintf, regs_3}
use riscv_simulator.Disassemble.Text.Arg.{word}

-- The cases behind `funct7 == FUNCT7_M`.
unfoldable pub dis_m : ℕ → ℕ → ℕ → ℕ → ℕ → ℕ → Output
dis_m instruction buffer_size rd funct3 rs1 rs2 =
    if funct3 == funct3_mul
    then snprintf buffer_size "mul %s, %s, %s" (regs_3 rd rs1 rs2)
    else if funct3 == funct3_mulh
    then snprintf buffer_size "mulh %s, %s, %s" (regs_3 rd rs1 rs2)
    else if funct3 == funct3_mulhsu
    then snprintf buffer_size "mulhsu %s, %s, %s" (regs_3 rd rs1 rs2)
    else if funct3 == funct3_mulhu
    then snprintf buffer_size "mulhu %s, %s, %s" (regs_3 rd rs1 rs2)
    else if funct3 == funct3_div
    then snprintf buffer_size "div %s, %s, %s" (regs_3 rd rs1 rs2)
    else if funct3 == funct3_divu
    then snprintf buffer_size "divu %s, %s, %s" (regs_3 rd rs1 rs2)
    else if funct3 == funct3_rem
    then snprintf buffer_size "rem %s, %s, %s" (regs_3 rd rs1 rs2)
    else if funct3 == funct3_remu
    then snprintf buffer_size "remu %s, %s, %s" (regs_3 rd rs1 rs2)
    else snprintf buffer_size "unknown M-extension instruction: 0x%08x" (word instruction ∷ [])

unfoldable pub dis_op : ℕ → ℕ → ℕ → ℕ → ℕ → ℕ → ℕ → Output
dis_op instruction buffer_size rd funct3 rs1 rs2 funct7 =
    if funct7 == funct7_m
    then dis_m instruction buffer_size rd funct3 rs1 rs2
    else if funct3 == 0x0
    then if funct7 == 0x00
      then snprintf buffer_size "add %s, %s, %s" (regs_3 rd rs1 rs2)
      else if funct7 == 0x20
      then snprintf buffer_size "sub %s, %s, %s" (regs_3 rd rs1 rs2)
      else none
    else if funct3 == 0x1
    then snprintf buffer_size "sll %s, %s, %s" (regs_3 rd rs1 rs2)
    else if funct3 == 0x2
    then snprintf buffer_size "slt %s, %s, %s" (regs_3 rd rs1 rs2)
    else if funct3 == 0x3
    then snprintf buffer_size "sltu %s, %s, %s" (regs_3 rd rs1 rs2)
    else if funct3 == 0x4
    then snprintf buffer_size "xor %s, %s, %s" (regs_3 rd rs1 rs2)
    else if funct3 == 0x5
    then if funct7 == 0x00
      then snprintf buffer_size "srl %s, %s, %s" (regs_3 rd rs1 rs2)
      else if funct7 == 0x20
      then snprintf buffer_size "sra %s, %s, %s" (regs_3 rd rs1 rs2)
      else none
    else if funct3 == 0x6
    then snprintf buffer_size "or %s, %s, %s" (regs_3 rd rs1 rs2)
    else if funct3 == 0x7
    then snprintf buffer_size "and %s, %s, %s" (regs_3 rd rs1 rs2)
    else snprintf buffer_size "r: 0x%08x" (word instruction ∷ [])

-- The cases of the 32-bit multiplications and divisions.
unfoldable pub dis_m_32 : ℕ → ℕ → ℕ → ℕ → ℕ → ℕ → Output
dis_m_32 instruction buffer_size rd funct3 rs1 rs2 =
    if funct3 == 0x0
    then snprintf buffer_size "mulw %s, %s, %s" (regs_3 rd rs1 rs2)
    else if funct3 == 0x4
    then snprintf buffer_size "divw %s, %s, %s" (regs_3 rd rs1 rs2)
    else if funct3 == 0x5
    then snprintf buffer_size "divuw %s, %s, %s" (regs_3 rd rs1 rs2)
    else if funct3 == 0x6
    then snprintf buffer_size "remw %s, %s, %s" (regs_3 rd rs1 rs2)
    else if funct3 == 0x7
    then snprintf buffer_size "remuw %s, %s, %s" (regs_3 rd rs1 rs2)
    else snprintf buffer_size "unknown R-type extension instruction: 0x%08x" (word instruction ∷ [])

unfoldable pub dis_op_32 : ℕ → ℕ → ℕ → ℕ → ℕ → ℕ → ℕ → Output
dis_op_32 instruction buffer_size rd funct3 rs1 rs2 funct7 =
    if funct7 == 0x1
    then dis_m_32 instruction buffer_size rd funct3 rs1 rs2
    else if funct3 == 0x0
    then if funct7 == 0x00
      then snprintf buffer_size "addw %s, %s, %s" (regs_3 rd rs1 rs2)
      else if funct7 == 0x20
      then snprintf buffer_size "subw %s, %s, %s" (regs_3 rd rs1 rs2)
      else none
    else if funct3 == 0x1
    then snprintf buffer_size "sllw %s, %s, %s" (regs_3 rd rs1 rs2)
    else if funct3 == 0x5
    then if funct7 == 0x00
      then snprintf buffer_size "srlw %s, %s, %s" (regs_3 rd rs1 rs2)
      else if funct7 == 0x20
      then snprintf buffer_size "sraw %s, %s, %s" (regs_3 rd rs1 rs2)
      else none
    else snprintf buffer_size "unknown R-type extension instruction: 0x%08x" (word instruction ∷ [])
