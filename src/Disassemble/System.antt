-- ===== src/Disassemble/System.antt =====
-- src/disassemble.c: dis_misc_mem and dis_system.
use riscv_simulator.Prelude.{ℕ, [], ◌∷◌, ◌==◌, if◌then◌else◌, ◌>>>◌}
use riscv_simulator.CsrDefs.{
  opcode_ebreak, opcode_ecall, opcode_mret, opcode_sret, opcode_uret, opcode_wfi,
}
use riscv_simulator.Disassemble.Names.{CsrNames, get_csr_name}
use riscv_simulator.Disassemble.Text.{Output, snprintf, reg, regs_word}
use riscv_simulator.Disassemble.Text.Arg.{text, word}

unfoldable pub dis_misc_mem : ℕ → ℕ → ℕ → Output
dis_misc_mem instruction buffer_size funct3 =
    if funct3 == 0x0
    then snprintf buffer_size "fence" []
    else if funct3 == 0x1
    then snprintf buffer_size "fence.I" []
    else snprintf buffer_size "unknown MISC-MEM instruction: 0x%08x" (word instruction ∷ [])

-- The case PRIV of dis_system.
unfoldable pub dis_priv : ℕ → ℕ → ℕ → Output
dis_priv instruction buffer_size imm =
    if imm == opcode_ecall
    then snprintf buffer_size "ecall" []
    else if imm == opcode_ebreak
    then snprintf buffer_size "ebreak" []
    else if imm == opcode_uret
    then snprintf buffer_size "uret" []
    else if imm == opcode_sret
    then snprintf buffer_size "sret" []
    else if imm == opcode_mret
    then snprintf buffer_size "mret" []
    else if imm == opcode_wfi
    then snprintf buffer_size "wfi" []
    else snprintf buffer_size "unknown PRIV instruction: 0x%08x" (word instruction ∷ [])

unfoldable pub dis_system : CsrNames → ℕ → ℕ → ℕ → ℕ → ℕ → ℕ → Output
dis_system names instruction buffer_size rd funct3 rs1 rs2 =
    let csr = instruction >>> 20 in
    if funct3 == 0x0
    then dis_priv instruction buffer_size csr
    else if funct3 == 0x1
    then snprintf buffer_size "csrrw %s, %s, %s"
        (reg rd ∷ reg rs1 ∷ text (get_csr_name names csr) ∷ [])
    else if funct3 == 0x2
    then if rs1 == 0
      then snprintf buffer_size "csrr %s, %s" (reg rd ∷ text (get_csr_name names csr) ∷ [])
      else snprintf buffer_size "csrrs %s, %s, %s"
          (reg rd ∷ reg rs1 ∷ text (get_csr_name names csr) ∷ [])
    else if funct3 == 0x3
    then snprintf buffer_size "csrrc %s, %s, %s"
        (reg rd ∷ reg rs1 ∷ text (get_csr_name names csr) ∷ [])
    else if funct3 == 0x5
    then snprintf buffer_size "csrrwi %s, %s, %d" (regs_word rd rs1 rs2)
    else if funct3 == 0x6
    then snprintf buffer_size "csrrsi %s, %s, %d" (regs_word rd rs1 rs2)
    else if funct3 == 0x7
    then snprintf buffer_size "csrrci %s, %s, %d" (regs_word rd rs1 rs2)
    else snprintf buffer_size "unknown SYSTEM instruction: 0x%08x" (word instruction ∷ [])
