-- ===== src/Disassemble/Immediate.antt =====
-- src/disassemble.c: dis_op_imm and dis_op_imm_32, the instructions with an immediate.
use riscv_simulator.Prelude.{ℕ, [], ◌∷◌, ◌==◌, if◌then◌else◌, none, bit_and}
use riscv_simulator.Inst.Decode.{imm_i}
use riscv_simulator.Disassemble.Text.{Output, snprintf, reg, regs_2, regs_word}
use riscv_simulator.Disassemble.Text.Arg.{word}

-- The case ADDI.
unfoldable pub dis_addi : ℕ → ℕ → ℕ → ℕ → Output
dis_addi buffer_size rd rs1 imm =
    if rs1 == 0
    then (if rd == 0
        then snprintf buffer_size "nop" []
        else snprintf buffer_size "li %s, %d" (reg rd ∷ word imm ∷ []))
    else (if imm == 0
        then snprintf buffer_size "mv %s, %s" (regs_2 rd rs1)
        else snprintf buffer_size "addi %s, %s, %d" (regs_word rd rs1 imm))

-- The shifts to the right hand `snprintf` the number 100, not the size of the buffer.
unfoldable pub dis_op_imm : ℕ → ℕ → ℕ → ℕ → ℕ → ℕ → ℕ → Output
dis_op_imm instruction buffer_size rd funct3 rs1 funct7 shamt =
    let imm = imm_i instruction in
    if funct3 == 0x0
    then dis_addi buffer_size rd rs1 imm
    else if funct3 == 0x1
    then snprintf buffer_size "slli %s, %s, 0x%x" (regs_word rd rs1 (bit_and imm 0x1F))
    else if funct3 == 0x2
    then snprintf buffer_size "slti %s, %s, %d" (regs_word rd rs1 imm)
    else if funct3 == 0x3
    then snprintf buffer_size "sltiu %s, %s, %d" (regs_word rd rs1 imm)
    else if funct3 == 0x4
    then snprintf buffer_size "xori %s, %s, %d" (regs_word rd rs1 imm)
    else if funct3 == 0x5
    then if funct7 == 0x00
      then snprintf 100 "srli %s, %s, %d" (regs_word rd rs1 shamt)
      else if funct7 == 0x20
      then snprintf 100 "srai %s, %s, %d" (regs_word rd rs1 shamt)
      else none
    else if funct3 == 0x6
    then snprintf buffer_size "ori %s, %s, %d" (regs_word rd rs1 imm)
    else if funct3 == 0x7
    then snprintf buffer_size "andi %s, %s, %d" (regs_word rd rs1 imm)
    else snprintf buffer_size "i: 0x%08x" (word instruction ∷ [])

-- `imm` is the unextended field of disassemble.
unfoldable pub dis_op_imm_32 : ℕ → ℕ → ℕ → ℕ → ℕ → ℕ → ℕ → ℕ → Output
dis_op_imm_32 instruction buffer_size rd funct3 rs1 funct7 imm shamt =
    if funct3 == 0x0
    then snprintf buffer_size "addiw %s, %s, 0x%x" (regs_word rd rs1 imm)
    else if funct3 == 0x1
    then snprintf buffer_size "slliw %s, %s, 0x%x" (regs_word rd rs1 shamt)
    else if funct3 == 0x5
    then if funct7 == 0x00
      then snprintf buffer_size "srliw %s, %s, 0x%x" (regs_word rd rs1 shamt)
      else if funct7 == 0x20
      then snprintf buffer_size "sraiw %s, %s, 0x%x" (regs_word rd rs1 shamt)
      else none
    else snprintf buffer_size "unknown I-type extension instruction: 0x%08x" (word instruction ∷ [])
