-- ===== src/Disassemble/Extension.antt =====
-- src/disassemble.c: dis_amo and dis_op_fp.
use riscv_simulator.Prelude.{ℕ, List, [], ◌∷◌, ◌==◌, if◌then◌else◌}
use riscv_simulator.Disassemble.Text.{Arg, Output, snprintf, reg, regs_2, regs_3, reg_offset}
use riscv_simulator.Disassemble.Text.Arg.{word}

-- `%s, %s, %d(%s)` with the number of rs2 for the offset.
unfoldable pub amo_args : ℕ → ℕ → ℕ → List Arg
amo_args rd rs2 rs1 = reg rd ∷ reg rs2 ∷ word rs2 ∷ reg rs1 ∷ []

unfoldable pub dis_amo : ℕ → ℕ → ℕ → ℕ → ℕ → ℕ → Output
dis_amo instruction buffer_size rd funct3 rs1 rs2 =
    if funct3 == 0x2
    then snprintf buffer_size "lr.W %s, %d(%s)" (reg_offset rd rs2 rs1)
    else if funct3 == 0x3
    then snprintf buffer_size "sc.W %s, %d(%s)" (reg_offset rd rs2 rs1)
    else if funct3 == 0x1
    then snprintf buffer_size "amoswap.W %s, %s, %d(%s)" (amo_args rd rs2 rs1)
    else if funct3 == 0x0
    then snprintf buffer_size "amoadd.W %s, %s, %d(%s)" (amo_args rd rs2 rs1)
    else if funct3 == 0x4
    then snprintf buffer_size "amoxor.W %s, %s, %d(%s)" (amo_args rd rs2 rs1)
    else if funct3 == 0x8
    then snprintf buffer_size "amoand.W %s, %s, %d(%s)" (amo_args rd rs2 rs1)
    else if funct3 == 0xC
    then snprintf buffer_size "amoor.W %s, %s, %d(%s)" (amo_args rd rs2 rs1)
    else if funct3 == 0x10
    then snprintf buffer_size "amomin.W %s, %s, %d(%s)" (amo_args rd rs2 rs1)
    else if funct3 == 0x14
    then snprintf buffer_size "amomax.W %s, %s, %d(%s)" (amo_args rd rs2 rs1)
    else if funct3 == 0x18
    then snprintf buffer_size "amominu.W %s, %s, %d(%s)" (amo_args rd rs2 rs1)
    else if funct3 == 0x1C
    then snprintf buffer_size "amomaxu.W %s, %s, %d(%s)" (amo_args rd rs2 rs1)
    else snprintf buffer_size "unknown AMO instruction: 0x%08x" (word instruction ∷ [])

unfoldable pub dis_op_fp : ℕ → ℕ → ℕ → ℕ → ℕ → ℕ → Output
dis_op_fp instruction buffer_size rd funct3 rs1 rs2 =
    if funct3 == 0x0
    then snprintf buffer_size "fadd.S %s, %s, %s" (regs_3 rd rs1 rs2)
    else if funct3 == 0x1
    then snprintf buffer_size "fsub.S %s, %s, %s" (regs_3 rd rs1 rs2)
    else if funct3 == 0x2
    then snprintf buffer_size "fmul.S %s, %s, %s" (regs_3 rd rs1 rs2)
    else if funct3 == 0x3
    then snprintf buffer_size "fdiv.S %s, %s, %s" (regs_3 rd rs1 rs2)
    else if funct3 == 0x4
    then snprintf buffer_size "fsgnj.S %s, %s, %s" (regs_3 rd rs1 rs2)
    else if funct3 == 0x5
    then snprintf buffer_size "fsgnjn.S %s, %s, %s" (regs_3 rd rs1 rs2)
    else if funct3 == 0x6
    then snprintf buffer_size "fsgnjx.S %s, %s, %s" (regs_3 rd rs1 rs2)
    else if funct3 == 0x7
    then snprintf buffer_size "fmin.S %s, %s, %s" (regs_3 rd rs1 rs2)
    else if funct3 == 0x8
    then snprintf buffer_size "fmax.S %s, %s, %s" (regs_3 rd rs1 rs2)
    else if funct3 == 0xA
    then snprintf buffer_size "fsqrt.S %s, %s" (regs_2 rd rs1)
    else if funct3 == 0x20
    then snprintf buffer_size "fcvt.W.S %s, %s" (regs_2 rd rs1)
    else if funct3 == 0x21
    then snprintf buffer_size "fcvt.WU.S %s, %s" (regs_2 rd rs1)
    else if funct3 == 0x25
    then snprintf buffer_size "fmv.X.W %s, %s" (regs_2 rd rs1)
    else if funct3 == 0x61
    then snprintf buffer_size "fcvt.S.W %s, %s" (regs_2 rd rs1)
    else if funct3 == 0x65
    then snprintf buffer_size "fmv.W.X %s, %s" (regs_2 rd rs1)
    else snprintf buffer_size "unknown FP instruction: 0x%08x" (word instruction ∷ [])
