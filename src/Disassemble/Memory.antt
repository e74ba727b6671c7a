-- ===== src/Disassemble/Memory.antt =====
-- src/disassemble.c: dis_load and dis_store.
use riscv_simulator.Prelude.{ℕ, [], ◌∷◌, ◌==◌, if◌then◌else◌, bit_and, bit_or, shl32, sra32, ◌>>>◌}
use riscv_simulator.Inst.Decode.{imm_i}
use riscv_simulator.Disassemble.Text.{Output, snprintf, reg_offset}
use riscv_simulator.Disassemble.Text.Arg.{word}

unfoldable pub dis_load : ℕ → ℕ → ℕ → ℕ → ℕ → Output
dis_load instruction buffer_size rd funct3 rs1 =
    let imm = imm_i instruction in
    if funct3 == 0x0
    then snprintf buffer_size "lb %s, %d(%s)" (reg_offset rd imm rs1)
    else if funct3 == 0x1
    then snprintf buffer_size "lh %s, %d(%s)" (reg_offset rd imm rs1)
    else if funct3 == 0x2
    then snprintf buffer_size "lw %s, %d(%s)" (reg_offset rd imm rs1)
    else if funct3 == 0x3
    then snprintf buffer_size "ld %s, %d(%s)" (reg_offset rd imm rs1)
    else if funct3 == 0x4
    then snprintf buffer_size "lbu %s, %d(%s)" (reg_offset rd imm rs1)
    else if funct3 == 0x5
    then snprintf buffer_size "lhu %s, %d(%s)" (reg_offset rd imm rs1)
    else if funct3 == 0x6
    then snprintf buffer_size "lwu %s, %d(%s)" (reg_offset rd imm rs1)
    else snprintf buffer_size "load: 0x%08x" (word instruction ∷ [])

-- `imm` of dis_store.
unfoldable pub store_imm : ℕ → ℕ
store_imm instruction =
    sra32 (shl32 (bit_or (shl32 (instruction >>> 25) 5) (bit_and (instruction >>> 7) 0x1F)) 20) 20

unfoldable pub dis_store : ℕ → ℕ → ℕ → ℕ → ℕ → Output
dis_store instruction buffer_size funct3 rs1 rs2 =
    let imm = store_imm instruction in
    if funct3 == 0x0
    then snprintf buffer_size "sb %s, %d(%s)" (reg_offset rs2 imm rs1)
    else if funct3 == 0x1
    then snprintf buffer_size "sh %s, %d(%s)" (reg_offset rs2 imm rs1)
    else if funct3 == 0x2
    then snprintf buffer_size "sw %s, %d(%s)" (reg_offset rs2 imm rs1)
    else if funct3 == 0x3
    then snprintf buffer_size "sd %s, %d(%s)" (reg_offset rs2 imm rs1)
    else snprintf buffer_size "store: 0x%08x" (word instruction ∷ [])
