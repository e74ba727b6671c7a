-- ===== src/Disassemble/Printable.antt =====
-- Every `snprintf` of src/disassemble.c is printable.
use Prim.Native.String.{String}
use riscv_simulator.Prelude.{
  ℕ, ◌<◌, ◌≤◌, ◌≡◌, ◌≢◌, Bool, true, ◌||◌, ◌==◌, bit_and, leb, none, some, List, [], ◌∷◌, arith,
  update, Bool-cases, inl, inr,
}
use riscv_simulator.Disassemble.Names.{
  CsrNames, assign_names, unknown_names, assignments, init_csr_names, get_csr_name,
}
use riscv_simulator.Disassemble.Text.{regs_2, regs_3, regs_word, regs_long, reg_offset}
use riscv_simulator.Disassemble.Register.{dis_m, dis_op, dis_m_32, dis_op_32}
use riscv_simulator.Disassemble.Immediate.{dis_addi, dis_op_imm, dis_op_imm_32}
use riscv_simulator.Disassemble.Memory.{dis_load, dis_store}
use riscv_simulator.Disassemble.Jump.{dis_jal, dis_branch, dis_jalr}
use riscv_simulator.Disassemble.System.{dis_misc_mem, dis_priv, dis_system}
use riscv_simulator.Disassemble.Extension.{amo_args, dis_amo, dis_op_fp}
use riscv_simulator.Disassemble.Formats.{IsPrintable, if-IsPrintable, under_test, printing}
use riscv_simulator.Disassemble.{dis_opcode, disassemble}
use riscv_simulator.Defs.{opcode_jal, opcode_branch}
use riscv_simulator.CsrDefs.Numbers.{max_csr_index}
use riscv_simulator.Disassemble.Fields.{rd_of-lt, rs1_of-lt, rs2_of-lt}

some-update :
    (names : CsrNames) (number i : ℕ) (name : String)
    → names i ≢ none
    → update names number (some name) i ≢ none
some-update names number i name h = ground arith

assign_names-some :
    (table : List (ℕ × String)) (names : CsrNames) (i : ℕ)
    → names i ≢ none
    → assign_names table names i ≢ none
unfolding assign_names
assign_names-some [] names i h = h
assign_names-some ((number, name) ∷ rest) names i h =
    assign_names-some rest _ i (some-update names number i name h)

unknown_names-some :
    (names : CsrNames) (i : ℕ) → leb i max_csr_index ≡ true → unknown_names names i ≢ none
unfolding unknown_names
unknown_names-some names i h = cc

get_csr_name-some : (names : CsrNames) (addr : ℕ) → get_csr_name (init_csr_names names) addr ≢ none
unfolding get_csr_name init_csr_names
get_csr_name-some names addr = elim (Bool-cases (leb addr max_csr_index)) [
  | inl inside ↦ rw inside (
      assign_names-some assignments (unknown_names names) addr
        (unknown_names-some names addr inside))
  | inr outside ↦ rw outside cc
]

module _ (size : ℕ) (room : 100 ≤ size) (is_wide : Bool) (instruction : ℕ) where
  dis_op-IsPrintable :
      (rd rs1 rs2 funct3 : ℕ) (funct7 : ℕ)
      → rd < 32
      → rs1 < 32
      → rs2 < 32
      → IsPrintable size is_wide (dis_op instruction size rd funct3 rs1 rs2 funct7)
  unfolding dis_op dis_m regs_3
  dis_op-IsPrintable rd rs1 rs2 funct3 funct7 h_rd h_rs1 h_rs2 =
      search (if-IsPrintable, printing, arith) depth 40 fits 8000

  dis_op_32-IsPrintable :
      (rd rs1 rs2 funct3 : ℕ) (funct7 : ℕ)
      → rd < 32
      → rs1 < 32
      → rs2 < 32
      → IsPrintable size is_wide (dis_op_32 instruction size rd funct3 rs1 rs2 funct7)
  unfolding dis_op_32 dis_m_32 regs_3
  dis_op_32-IsPrintable rd rs1 rs2 funct3 funct7 h_rd h_rs1 h_rs2 =
      search (if-IsPrintable, printing, arith) depth 40 fits 8000

  dis_op_imm-IsPrintable :
      (rd rs1 funct3 : ℕ) (funct7 shamt : ℕ)
      → rd < 32
      → rs1 < 32
      → IsPrintable size is_wide (dis_op_imm instruction size rd funct3 rs1 funct7 shamt)
  unfolding dis_op_imm dis_addi regs_word regs_2
  dis_op_imm-IsPrintable rd rs1 funct3 funct7 shamt h_rd h_rs1 =
      search (if-IsPrintable, printing, arith) depth 40 fits 8000

  dis_op_imm_32-IsPrintable :
      (rd rs1 funct3 : ℕ) (funct7 imm shamt : ℕ)
      → rd < 32
      → rs1 < 32
      → IsPrintable size is_wide (dis_op_imm_32 instruction size rd funct3 rs1 funct7 imm shamt)
  unfolding dis_op_imm_32 regs_word
  dis_op_imm_32-IsPrintable rd rs1 funct3 funct7 imm shamt h_rd h_rs1 =
      search (if-IsPrintable, printing, arith) depth 40 fits 8000

  dis_load-IsPrintable :
      (rd rs1 funct3 : ℕ)
      → rd < 32
      → rs1 < 32
      → IsPrintable size is_wide (dis_load instruction size rd funct3 rs1)
  unfolding dis_load reg_offset
  dis_load-IsPrintable rd rs1 funct3 h_rd h_rs1 =
      search (if-IsPrintable, printing, arith) depth 40 fits 8000

  dis_store-IsPrintable :
      (rs1 rs2 funct3 : ℕ)
      → rs1 < 32
      → rs2 < 32
      → IsPrintable size is_wide (dis_store instruction size funct3 rs1 rs2)
  unfolding dis_store reg_offset
  dis_store-IsPrintable rs1 rs2 funct3 h_rs1 h_rs2 =
      search (if-IsPrintable, printing, arith) depth 40 fits 8000

  dis_branch-IsPrintable :
      (rs1 rs2 funct3 : ℕ) (address : ℕ)
      → rs1 < 32
      → rs2 < 32
      → is_wide ≡ true
      → IsPrintable size is_wide (dis_branch address instruction size funct3 rs1 rs2)
  unfolding dis_branch regs_word regs_long
  dis_branch-IsPrintable rs1 rs2 funct3 address h_rs1 h_rs2 wide =
      search (if-IsPrintable, printing, arith) depth 40 fits 8000

  dis_jal-IsPrintable :
      (rd : ℕ) (address : ℕ)
      → rd < 32
      → is_wide ≡ true
      → IsPrintable size is_wide (dis_jal address instruction size rd)
  unfolding dis_jal
  dis_jal-IsPrintable rd address h_rd wide =
      search (if-IsPrintable, printing, arith) depth 40 fits 8000

  dis_jalr-IsPrintable :
      (rd rs1 : ℕ)
      → rd < 32
      → rs1 < 32
      → IsPrintable size is_wide (dis_jalr instruction size rd rs1)
  unfolding dis_jalr reg_offset
  dis_jalr-IsPrintable rd rs1 h_rd h_rs1 =
      search (if-IsPrintable, printing, arith) depth 40 fits 8000

  dis_misc_mem-IsPrintable :
      (funct3 : ℕ) → IsPrintable size is_wide (dis_misc_mem instruction size funct3)
  unfolding dis_misc_mem
  dis_misc_mem-IsPrintable funct3 = search (if-IsPrintable, printing, arith) depth 40 fits 8000

  dis_system-IsPrintable :
      (rd rs1 rs2 funct3 : ℕ) (names : CsrNames)
      → rd < 32
      → rs1 < 32
      → rs2 < 32
      → IsPrintable size is_wide
          (dis_system (init_csr_names names) instruction size rd funct3 rs1 rs2)
  unfolding dis_system dis_priv regs_word
  dis_system-IsPrintable rd rs1 rs2 funct3 names h_rd h_rs1 h_rs2 =
      search (if-IsPrintable, printing, get_csr_name-some, arith) depth 40 fits 8000

  dis_amo-IsPrintable :
      (rd rs1 rs2 funct3 : ℕ)
      → rd < 32
      → rs1 < 32
      → rs2 < 32
      → IsPrintable size is_wide (dis_amo instruction size rd funct3 rs1 rs2)
  unfolding dis_amo amo_args reg_offset
  dis_amo-IsPrintable rd rs1 rs2 funct3 h_rd h_rs1 h_rs2 =
      search (if-IsPrintable, printing, arith) depth 40 fits 8000

  dis_op_fp-IsPrintable :
      (rd rs1 rs2 funct3 : ℕ)
      → rd < 32
      → rs1 < 32
      → rs2 < 32
      → IsPrintable size is_wide (dis_op_fp instruction size rd funct3 rs1 rs2)
  unfolding dis_op_fp regs_2 regs_3
  dis_op_fp-IsPrintable rd rs1 rs2 funct3 h_rd h_rs1 h_rs2 =
      search (if-IsPrintable, printing, arith) depth 40 fits 8000

left_true : (a b : Bool) → a ≡ true → (a || b) ≡ true
left_true a b h = ground arith

right_true : (a b : Bool) → b ≡ true → (a || b) ≡ true
right_true a b h = ground arith

-- Once the names of the control registers are set, and with a buffer of at least 100 bytes, whatever
-- `disassemble` prints for any instruction at any address stays within the buffer, and its format
-- has one argument for each conversion: a string that is no null pointer and no register name from
-- outside the table, or an integer of the 32 bits that the conversion reads. Only for a JAL and the
-- branches, an integer may instead be a `uint64_t`, which `%d` and `%x` do not ask for.
pub disassemble-IsPrintable :
    (names : CsrNames) (address instruction size : ℕ) (is_null : Bool)
    → 100 ≤ size
    → IsPrintable size
        (bit_and instruction 0x7F == opcode_jal || bit_and instruction 0x7F == opcode_branch)
        (disassemble (init_csr_names names) address instruction is_null size)
unfolding disassemble dis_opcode
disassemble-IsPrintable names address instruction size is_null h =
    search
      (
        under_test, printing, left_true, right_true, dis_op-IsPrintable, dis_op_32-IsPrintable,
        dis_op_imm-IsPrintable, dis_op_imm_32-IsPrintable, dis_load-IsPrintable,
        dis_store-IsPrintable, dis_branch-IsPrintable, dis_jal-IsPrintable, dis_jalr-IsPrintable,
        dis_misc_mem-IsPrintable, dis_system-IsPrintable, dis_amo-IsPrintable,
        dis_op_fp-IsPrintable, rd_of-lt, rs1_of-lt, rs2_of-lt, arith,
      )
      depth 60 fits 100000
