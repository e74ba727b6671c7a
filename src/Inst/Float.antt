-- ===== src/Inst/Float.antt =====
-- src/f_extension.c: single-precision operations. The arithmetic is the host's and is a parameter,
-- on bit patterns. The code stores a `float` by reading eight bytes at its address: the four bytes
-- behind it are the parameter's too.
pub mod Valid
use riscv_simulator.Prelude.{ℕ, ◌+◌, ◌*◌, ◌^◌, bit_and, bit_or, bit_xor, ◌==◌, if◌then◌else◌}
use riscv_simulator.Prelude.{u32, not32}
use riscv_simulator.CsrDefs.{cause_illegal_instruction}
use riscv_simulator.State.{Cpu, set_fregister}
use riscv_simulator.Exception.{raise_exception}
use riscv_simulator.Inst.Decode.{rd_of, funct3_of, rs1_of, rs2_of, funct7_of}

-- The host's `float` operations of C and of math.h.
pub record Fpu : Type 0 where
  pub fadd : ℕ → ℕ → ℕ
  pub fsub : ℕ → ℕ → ℕ
  pub fmul : ℕ → ℕ → ℕ
  pub fdiv : ℕ → ℕ → ℕ
  pub fsqrt : ℕ → ℕ
  pub fmin : ℕ → ℕ → ℕ
  pub fmax : ℕ → ℕ → ℕ
  pub stack_word : ℕ

-- `*((float*)&cpu->fregisters[rs])`
unfoldable pub read_float : Cpu → ℕ → ℕ
read_float cpu rs = u32 (cpu.fregisters rs)

module _ (fpu : Fpu) where
  -- `cpu->fregisters[rd] = *((uint64_t*)&result)`
  unfoldable pub write_float : Cpu → ℕ → ℕ → Cpu
  write_float cpu rd result = set_fregister cpu rd (u32 result + u32 fpu.stack_word * 2 ^ 32)

  unfoldable pub float_op : (ℕ → ℕ → ℕ) → Cpu → ℕ → ℕ → ℕ → Cpu
  float_op op cpu rd rs1 rs2 = write_float cpu rd (op (read_float cpu rs1) (read_float cpu rs2))

  unfoldable pub execute_fsqrt_s : Cpu → ℕ → ℕ → Cpu
  execute_fsqrt_s cpu rd rs1 = write_float cpu rd (fpu.fsqrt (read_float cpu rs1))

-- The three sign injections work on the low words and leave the high word 0.
unfoldable pub fsgnj : ℕ → ℕ → ℕ
fsgnj x y = bit_or (bit_and x 0x7FFFFFFF) (bit_and y 0x80000000)

unfoldable pub fsgnjn : ℕ → ℕ → ℕ
fsgnjn x y = bit_or (bit_and x 0x7FFFFFFF) (bit_and (not32 y) 0x80000000)

unfoldable pub fsgnjx : ℕ → ℕ → ℕ
fsgnjx x y = bit_xor x (bit_and y 0x80000000)

unfoldable pub sign_op : (ℕ → ℕ → ℕ) → Cpu → ℕ → ℕ → ℕ → Cpu
sign_op op cpu rd rs1 rs2 =
    set_fregister cpu rd (op (u32 (cpu.fregisters rs1)) (u32 (cpu.fregisters rs2)))

module _ (fpu : Fpu) where
  unfoldable pub float : Cpu → ℕ → ℕ → ℕ → ℕ → ℕ → Cpu
  float cpu funct7 funct3 rd rs1 rs2 =
      if funct7 == 0x00
      then (if funct3 == 0x0
          then float_op fpu fpu.fadd cpu rd rs1 rs2
          else if funct3 == 0x1
          then float_op fpu fpu.fsub cpu rd rs1 rs2
          else if funct3 == 0x2
          then float_op fpu fpu.fmul cpu rd rs1 rs2
          else if funct3 == 0x3
          then float_op fpu fpu.fdiv cpu rd rs1 rs2
          else if funct3 == 0x4
          then execute_fsqrt_s fpu cpu rd rs1
          else if funct3 == 0x5
          then sign_op fsgnj cpu rd rs1 rs2
          else if funct3 == 0x6
          then sign_op fsgnjn cpu rd rs1 rs2
          else if funct3 == 0x7
          then sign_op fsgnjx cpu rd rs1 rs2
          else if funct3 == 0x8
          then float_op fpu fpu.fmin cpu rd rs1 rs2
          else if funct3 == 0x9
          then float_op fpu fpu.fmax cpu rd rs1 rs2
          else raise_exception cpu cause_illegal_instruction)
      else raise_exception cpu cause_illegal_instruction

  unfoldable pub execute_f_extension_instruction : Cpu → ℕ → Cpu
  execute_f_extension_instruction cpu instruction =
      float cpu (funct7_of instruction) (funct3_of instruction) (rd_of instruction)
        (rs1_of instruction) (rs2_of instruction)
