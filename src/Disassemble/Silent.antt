-- ===== src/Disassemble/Silent.antt =====
-- src/disassemble.c: the instructions for which nothing is printed.
use Prim.Native.String.{String}
use riscv_simulator.Prelude.{
  ℕ, ◌≡◌, refl, Bool, true, false, ◌&&◌, ◌||◌, bit_and, ◌>>>◌, ◌==◌, ◌!=◌, if◌then◌else◌, List,
  none, some, arith,
}
use riscv_simulator.Defs.{opcode, opcode_op_imm, opcode_op, opcode_op_imm_32, opcode_op_32}
use riscv_simulator.Inst.Decode.{rd_of, rs1_of, rs2_of, funct3_of, funct7_of}
use riscv_simulator.Disassemble.Names.{CsrNames}
use riscv_simulator.Disassemble.Text.{Arg, Output, snprintf}
use riscv_simulator.Disassemble.Register.{dis_m, dis_op, dis_m_32, dis_op_32}
use riscv_simulator.Disassemble.Immediate.{dis_addi, dis_op_imm, dis_op_imm_32}
use riscv_simulator.Disassemble.Memory.{dis_load, dis_store}
use riscv_simulator.Disassemble.Jump.{dis_jal, dis_branch, dis_jalr}
use riscv_simulator.Disassemble.System.{dis_misc_mem, dis_priv, dis_system}
use riscv_simulator.Disassemble.Extension.{dis_amo, dis_op_fp}
use riscv_simulator.Disassemble.{dis_opcode, disassemble}

unfoldable pub is_printed : Output → Bool
is_printed none = false
is_printed (some p) = true

-- The shifts to the right by an immediate have two encodings of funct7, the other pairs of
-- instructions that funct7 tells apart have three.
unfoldable pub is_shown : ℕ → ℕ → ℕ → Bool
is_shown op funct3 funct7 =
    if op == opcode_op_imm || op == opcode_op_imm_32
    then funct3 != 5 || funct7 == 0 || funct7 == 0x20
    else if op == opcode_op || op == opcode_op_32
    then (funct3 != 0 && funct3 != 5) || funct7 == 0 || funct7 == 1 || funct7 == 0x20
    else true

if-is_printed :
    (b : Bool) (x y : Output)
    → is_printed x ≡ true
    → is_printed y ≡ true
    → is_printed (if b then x else y) ≡ true
if-is_printed true x y p q = p
if-is_printed false x y p q = q

snprintf-is_printed :
    (limit : ℕ) (format : String) (args : List Arg) → is_printed (snprintf limit format args) ≡ true
unfolding is_printed snprintf
snprintf-is_printed limit format args = refl

dis_op-is_printed :
    (instruction size rd funct3 rs1 rs2 funct7 : ℕ)
    → is_printed (dis_op instruction size rd funct3 rs1 rs2 funct7)
      ≡ is_shown opcode_op funct3 funct7
unfolding is_printed is_shown dis_op dis_m snprintf
dis_op-is_printed instruction size rd funct3 rs1 rs2 funct7 = ground arith

dis_op_32-is_printed :
    (instruction size rd funct3 rs1 rs2 funct7 : ℕ)
    → is_printed (dis_op_32 instruction size rd funct3 rs1 rs2 funct7)
      ≡ is_shown opcode_op_32 funct3 funct7
unfolding is_printed is_shown dis_op_32 dis_m_32 snprintf
dis_op_32-is_printed instruction size rd funct3 rs1 rs2 funct7 = ground arith

dis_op_imm-is_printed :
    (instruction size rd funct3 rs1 funct7 shamt : ℕ)
    → is_printed (dis_op_imm instruction size rd funct3 rs1 funct7 shamt)
      ≡ is_shown opcode_op_imm funct3 funct7
unfolding is_printed is_shown dis_op_imm dis_addi snprintf
dis_op_imm-is_printed instruction size rd funct3 rs1 funct7 shamt = ground arith

dis_op_imm_32-is_printed :
    (instruction size rd funct3 rs1 funct7 imm shamt : ℕ)
    → is_printed (dis_op_imm_32 instruction size rd funct3 rs1 funct7 imm shamt)
      ≡ is_shown opcode_op_imm_32 funct3 funct7
unfolding is_printed is_shown dis_op_imm_32 snprintf
dis_op_imm_32-is_printed instruction size rd funct3 rs1 funct7 imm shamt = ground arith

dis_load-is_printed :
    (instruction size rd funct3 rs1 : ℕ)
    → is_printed (dis_load instruction size rd funct3 rs1) ≡ true
unfolding dis_load
dis_load-is_printed instruction size rd funct3 rs1 =
    search (if-is_printed, snprintf-is_printed) depth 40 fits 8000

dis_store-is_printed :
    (instruction size funct3 rs1 rs2 : ℕ)
    → is_printed (dis_store instruction size funct3 rs1 rs2) ≡ true
unfolding dis_store
dis_store-is_printed instruction size funct3 rs1 rs2 =
    search (if-is_printed, snprintf-is_printed) depth 40 fits 8000

dis_branch-is_printed :
    (address instruction size funct3 rs1 rs2 : ℕ)
    → is_printed (dis_branch address instruction size funct3 rs1 rs2) ≡ true
unfolding dis_branch
dis_branch-is_printed address instruction size funct3 rs1 rs2 =
    search (if-is_printed, snprintf-is_printed) depth 40 fits 8000

dis_jal-is_printed :
    (address instruction size rd : ℕ) → is_printed (dis_jal address instruction size rd) ≡ true
unfolding dis_jal
dis_jal-is_printed address instruction size rd =
    search (if-is_printed, snprintf-is_printed) depth 40 fits 8000

dis_jalr-is_printed :
    (instruction size rd rs1 : ℕ) → is_printed (dis_jalr instruction size rd rs1) ≡ true
unfolding dis_jalr
dis_jalr-is_printed instruction size rd rs1 =
    search (if-is_printed, snprintf-is_printed) depth 40 fits 8000

dis_misc_mem-is_printed :
    (instruction size funct3 : ℕ) → is_printed (dis_misc_mem instruction size funct3) ≡ true
unfolding dis_misc_mem
dis_misc_mem-is_printed instruction size funct3 =
    search (if-is_printed, snprintf-is_printed) depth 40 fits 8000

dis_system-is_printed :
    (names : CsrNames) (instruction size rd funct3 rs1 rs2 : ℕ)
    → is_printed (dis_system names instruction size rd funct3 rs1 rs2) ≡ true
unfolding dis_system dis_priv
dis_system-is_printed names instruction size rd funct3 rs1 rs2 =
    search (if-is_printed, snprintf-is_printed) depth 40 fits 8000

dis_amo-is_printed :
    (instruction size rd funct3 rs1 rs2 : ℕ)
    → is_printed (dis_amo instruction size rd funct3 rs1 rs2) ≡ true
unfolding dis_amo
dis_amo-is_printed instruction size rd funct3 rs1 rs2 =
    search (if-is_printed, snprintf-is_printed) depth 40 fits 8000

dis_op_fp-is_printed :
    (instruction size rd funct3 rs1 rs2 : ℕ)
    → is_printed (dis_op_fp instruction size rd funct3 rs1 rs2) ≡ true
unfolding dis_op_fp
dis_op_fp-is_printed instruction size rd funct3 rs1 rs2 =
    search (if-is_printed, snprintf-is_printed) depth 40 fits 8000

-- A buffer that is no null pointer is left as it was, whatever the names, the address and the size,
-- exactly for these instructions: of OP-IMM and OP-IMM-32 the shifts to the right whose funct7 is
-- neither 0 nor 0x20, and of OP and OP-32 those with funct3 0 or 5 whose funct7 is none of 0, 1 and
-- 0x20. Everything else is printed.
pub disassemble-is_printed :
    (names : CsrNames) (address instruction size : ℕ)
    → is_printed (disassemble names address instruction false size)
      ≡ is_shown (opcode instruction) (funct3_of instruction) (funct7_of instruction)
unfolding disassemble dis_opcode opcode is_shown snprintf is_printed
disassemble-is_printed names address instruction size =
    let rd = rd_of instruction in
    let f3 = funct3_of instruction in
    let rs1 = rs1_of instruction in
    let rs2 = rs2_of instruction in
    let f7 = funct7_of instruction in
    let shamt = bit_and (instruction >>> 20) 0x1F in
    ground (
      arith,
      dis_op-is_printed instruction size rd f3 rs1 rs2 f7,
      dis_op_32-is_printed instruction size rd f3 rs1 rs2 f7,
      dis_op_imm-is_printed instruction size rd f3 rs1 f7 shamt,
      dis_op_imm_32-is_printed instruction size rd f3 rs1 f7 (instruction >>> 20) shamt,
      dis_load-is_printed instruction size rd f3 rs1,
      dis_store-is_printed instruction size f3 rs1 rs2,
      dis_branch-is_printed address instruction size f3 rs1 rs2,
      dis_jal-is_printed address instruction size rd,
      dis_jalr-is_printed instruction size rd rs1,
      dis_misc_mem-is_printed instruction size f3,
      dis_system-is_printed names instruction size rd f3 rs1 rs2,
      dis_amo-is_printed instruction size rd f3 rs1 rs2,
      dis_op_fp-is_printed instruction size rd f3 rs1 rs2,
    )
