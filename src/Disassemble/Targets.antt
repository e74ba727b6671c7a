-- ===== src/Disassemble/Targets.antt =====
-- The addresses that src/disassemble.c shows for jumps and branches, and where src/cpu.c goes.
use mathlib.Core.List.{append-nil}
use Prim.Native.String.{String}
use riscv_simulator.Prelude.{
  ℕ, ◌≡◌, ◌⊎◌, inl, inr, Bool-cases, sym, ap, ◌∙◌, Bool, true, false, ◌+◌, ◌≤◌, ◌<◌, ltb, ◌==◌,
  ◌&&◌, if◌then◌else◌, some, List, [], ◌++◌, arith, u64, sext32,
}
use riscv_simulator.Defs.{opcode, opcode_jal, opcode_branch, funct3_beq}
use riscv_simulator.CsrDefs.{csr_mstatus}
use riscv_simulator.Prelude.{bit}
use riscv_simulator.State.{Cpu, set_register}
use riscv_simulator.Exception.{handle_interrupt}
use riscv_simulator.Exception.Arbitration.{handle_interrupt-masked}
use riscv_simulator.Inst.Decode.{rd_of, funct3_of, rs1_of, rs2_of, imm_b, imm_j}
use riscv_simulator.Inst.Branch.{taken, execute_b_type_instruction}
use riscv_simulator.Inst.Jump.{link, jal, execute_j_type_instruction}
use riscv_simulator.Inst.Float.{Fpu}
use riscv_simulator.Cpu.{before, after, pc_set, dispatch, cpu_execute}
use riscv_simulator.Disassemble.Names.{CsrNames}
use riscv_simulator.Disassemble.Text.{codes, snprintf, regs_long, regs_word}
use riscv_simulator.Disassemble.Render.{
  text_of, render, shown, string_shown, bytes_of, integer_shown, padded, join, hexadecimal, decimal,
  register_text, shown-reg,
}
use riscv_simulator.Disassemble.Fields.{rd_of-lt, rs1_of-lt, rs2_of-lt}
use riscv_simulator.Disassemble.Jump.{dis_jal, dis_branch, jal_imm, branch_imm}
use riscv_simulator.Disassemble.{dis_opcode, disassemble}

-- A jump: `j` without a link, `jal` alone with the return address register, in hexadecimal; with any
-- other register its name and the target as a signed decimal number.
unfoldable pub jal_text : ℕ → ℕ → List ℕ
jal_text rd target =
    if rd == 0
    then codes "j 0x" ++ hexadecimal target
    else if rd == 1
    then codes "jal 0x" ++ hexadecimal target
    else codes "jal " ++ (register_text rd ++ (codes ", " ++ decimal target))

-- The names of the branches, by funct3; the two tests for equality have a short form for register 0.
unfoldable pub branch_name : ℕ → Bool → String
branch_name funct3 short =
    if funct3 == 0
    then "beqz"
    else if funct3 == 1
    then if short then "bnez" else "bne"
    else if funct3 == 4
    then "blt"
    else if funct3 == 5
    then "bge"
    else if funct3 == 6
    then "bltu"
    else "bgeu"

-- A branch: its name, the registers that it compares, and the target in hexadecimal.
unfoldable pub branch_text : ℕ → ℕ → ℕ → ℕ → List ℕ
branch_text funct3 rs1 rs2 target =
    let short = ltb funct3 2 && rs2 == 0 in
    codes (branch_name funct3 short)
    ++ (codes " "
        ++ (register_text rs1
            ++ ((if short then [] else codes ", " ++ register_text rs2)
                ++ (codes ", 0x" ++ hexadecimal target))))

dis_jal-text :
    (address instruction size rd : ℕ)
    → rd < 32
    → text_of (dis_jal address instruction size rd)
      ≡ some (jal_text rd (u64 (sext32 (imm_j instruction) + address)))
unfolding jal_text text_of dis_jal jal_imm imm_j snprintf render shown string_shown bytes_of
    integer_shown padded join
dis_jal-text address instruction size rd h =
    let target = u64 (sext32 (imm_j instruction) + address) in
    ground (arith, shown-reg rd h, append-nil (hexadecimal target), append-nil (decimal target))

branches :
    (f x y : ℕ) → taken f x y ≡ true → (f ≡ 0) ⊎ (f ≡ 1) ⊎ (f ≡ 4) ⊎ (f ≡ 5) ⊎ (f ≡ 6) ⊎ (f ≡ 7)
unfolding taken
branches f x y h = ground arith

module _ (address instruction size rs1 rs2 : ℕ) (h_rs1 : rs1 < 32) (h_rs2 : rs2 < 32) where
  abbrev target : ℕ
  target = u64 (address + sext32 (imm_b instruction))

  abbrev HasText : ℕ → Type 0
  HasText f =
      text_of (dis_branch address instruction size f rs1 rs2) ≡ some (branch_text f rs1 rs2 target)

  -- The text of each branch by its number.
  numbered-text :
      (f : ℕ)
      → (f ≡ 0) ⊎ (f ≡ 1) ⊎ (f ≡ 4) ⊎ (f ≡ 5) ⊎ (f ≡ 6) ⊎ (f ≡ 7)
      → (f ≡ funct3_beq → rs2 ≡ 0)
      → HasText f
  unfolding branch_text branch_name text_of dis_branch branch_imm imm_b snprintf render shown
      string_shown bytes_of integer_shown padded join regs_long regs_word
  numbered-text f (inl e) z =
      rw e (ground (arith, shown-reg rs1 h_rs1, z e, append-nil (hexadecimal target)))
  numbered-text f (inr (inl e)) z = elim (Bool-cases (rs2 == 0)) [
    | inl zero ↦ rw (e, zero) (ground (arith, shown-reg rs1 h_rs1, append-nil (hexadecimal target)))
    | inr other ↦
        rw (e, other)
          (ground
            (arith, shown-reg rs1 h_rs1, shown-reg rs2 h_rs2, append-nil (hexadecimal target)))
  ]
  numbered-text f (inr (inr (inl e))) z =
      rw e
        (ground (arith, shown-reg rs1 h_rs1, shown-reg rs2 h_rs2, append-nil (hexadecimal target)))
  numbered-text f (inr (inr (inr (inl e)))) z =
      rw e
        (ground (arith, shown-reg rs1 h_rs1, shown-reg rs2 h_rs2, append-nil (hexadecimal target)))
  numbered-text f (inr (inr (inr (inr (inl e))))) z =
      rw e
        (ground (arith, shown-reg rs1 h_rs1, shown-reg rs2 h_rs2, append-nil (hexadecimal target)))
  numbered-text f (inr (inr (inr (inr (inr e))))) z =
      rw e
        (ground (arith, shown-reg rs1 h_rs1, shown-reg rs2 h_rs2, append-nil (hexadecimal target)))

-- No interrupt is taken: MIE is clear, or an interrupt is being handled.
abbrev pub IsMasked : Cpu → Type 0
IsMasked c = (bit (c.csr csr_mstatus) 3 ≡ 0) ⊎ (2 ≤ c.current_priority)

-- A step in which no interrupt is taken ends where the instruction goes.
step-pc :
    (fpu : Fpu) (c c' : Cpu) (instruction : ℕ)
    → dispatch fpu (before c) instruction ≡ pc_set c'
    → IsMasked c'
    → (cpu_execute fpu c instruction).pc ≡ c'.pc
unfolding cpu_execute after pc_set set_register
step-pc fpu c c' instruction e masked =
    ap (λ (d : Cpu). (handle_interrupt (after d)).1.pc) e
    ∙ ap (λ (r : Bool × Cpu). r.1.pc) (handle_interrupt-masked (after (pc_set c')) masked)

dispatch-jal :
    (fpu : Fpu) (c : Cpu) (instruction : ℕ)
    → opcode instruction ≡ opcode_jal
    → dispatch fpu c instruction ≡ pc_set (jal c instruction)
unfolding dispatch execute_j_type_instruction opcode
dispatch-jal fpu c instruction h = rw h

dispatch-branch :
    (fpu : Fpu) (c : Cpu) (instruction : ℕ)
    → opcode instruction ≡ opcode_branch
    → dispatch fpu c instruction ≡ pc_set (execute_b_type_instruction c instruction)
unfolding dispatch opcode
dispatch-branch fpu c instruction h = rw h

jal-IsMasked : (c : Cpu) (instruction : ℕ) → IsMasked c → IsMasked (jal (before c) instruction)
unfolding jal link before set_register
jal-IsMasked c instruction h = ground arith

jal-pc :
    (c : Cpu) (instruction : ℕ)
    → (jal (before c) instruction).pc ≡ u64 (c.pc + sext32 (imm_j instruction))
unfolding jal link before set_register
jal-pc c instruction = ground arith

disassemble-jal :
    (names : CsrNames) (c : Cpu) (instruction size : ℕ)
    → opcode instruction ≡ opcode_jal
    → text_of (disassemble names c.pc instruction false size)
      ≡ some (jal_text (rd_of instruction) (u64 (c.pc + sext32 (imm_j instruction))))
unfolding disassemble dis_opcode opcode
disassemble-jal names c instruction size h = rw h (
    dis_jal-text c.pc instruction size (rd_of instruction) (rd_of-lt instruction)
    ∙ ap (λ n. some (jal_text (rd_of instruction) (u64 n))) (omega arith))

disassemble-branch :
    (names : CsrNames) (c : Cpu) (instruction size : ℕ)
    → opcode instruction ≡ opcode_branch
    → text_of (disassemble names c.pc instruction false size)
      ≡ text_of (
          dis_branch c.pc instruction size
            (funct3_of instruction)
            (rs1_of instruction)
            (rs2_of instruction))
unfolding disassemble dis_opcode opcode
disassemble-branch names c instruction size h = rw h

branch-pc :
    (c : Cpu) (instruction : ℕ)
    → taken
        (funct3_of instruction)
        ((before c).registers (rs1_of instruction))
        ((before c).registers (rs2_of instruction))
      ≡ true
    → (execute_b_type_instruction (before c) instruction).pc
      ≡ u64 (c.pc + sext32 (imm_b instruction))
unfolding execute_b_type_instruction before set_register
branch-pc c instruction h = rw h

branch-IsMasked :
    (c : Cpu) (instruction : ℕ)
    → IsMasked c
    → IsMasked (execute_b_type_instruction (before c) instruction)
unfolding execute_b_type_instruction before set_register
branch-IsMasked c instruction h = h

-- The whole text that `disassemble` prints for a JAL at the program counter, in a buffer that is large
-- enough, shows the program counter behind the step that executes it, if no interrupt is taken: its low
-- 32 bits in hexadecimal behind "j" (no link) and "jal" (x1), and as a signed decimal number behind
-- "jal" with the name of any other register.
pub disassemble-cpu_execute_jal :
    (fpu : Fpu) (names : CsrNames) (c : Cpu) (instruction size : ℕ)
    → opcode instruction ≡ opcode_jal
    → IsMasked c
    → text_of (disassemble names c.pc instruction false size)
      ≡ some (jal_text (rd_of instruction) (cpu_execute fpu c instruction).pc)
disassemble-cpu_execute_jal fpu names c instruction size h masked =
    disassemble-jal names c instruction size h
    ∙ ap (λ n. some (jal_text (rd_of instruction) n))
        (sym (
          step-pc fpu c _ instruction (dispatch-jal fpu (before c) instruction h)
            (jal-IsMasked c instruction masked)
          ∙ jal-pc c instruction))

-- The whole text that `disassemble` prints for a branch at the program counter, in a buffer that is
-- large enough, is its name, the registers it compares and, in hexadecimal, the low 32 bits of the
-- program counter behind the step that executes it, if the branch is taken, no interrupt is, and the
-- branch is not a BEQ of two registers (of which the offset is printed). Register 0 is read as 0.
pub disassemble-cpu_execute_branch :
    (fpu : Fpu) (names : CsrNames) (c : Cpu) (instruction size : ℕ)
    → opcode instruction ≡ opcode_branch
    → IsMasked c
    → taken
        (funct3_of instruction)
        ((before c).registers (rs1_of instruction))
        ((before c).registers (rs2_of instruction))
      ≡ true
    → (funct3_of instruction ≡ funct3_beq → rs2_of instruction ≡ 0)
    → text_of (disassemble names c.pc instruction false size)
      ≡ some (
          branch_text
            (funct3_of instruction)
            (rs1_of instruction)
            (rs2_of instruction)
            (cpu_execute fpu c instruction).pc)
disassemble-cpu_execute_branch fpu names c instruction size h masked goes short =
    disassemble-branch names c instruction size h
    ∙ numbered-text c.pc instruction size _ _ (rs1_of-lt instruction) (rs2_of-lt instruction) _
        (branches _ _ _ goes) short
    ∙ ap
        (λ n.
          some (branch_text (funct3_of instruction) (rs1_of instruction) (rs2_of instruction) n))
        (sym (
          step-pc fpu c _ instruction (dispatch-branch fpu (before c) instruction h)
            (branch-IsMasked c instruction masked)
          ∙ branch-pc c instruction goes))
