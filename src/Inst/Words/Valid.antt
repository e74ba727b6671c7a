-- ===== src/Inst/Words/Valid.antt =====
-- The handlers of src/i_64_inst.c keep every field within its width.
use riscv_simulator.Prelude.{ℕ, ◌^◌, ◌<◌, ◌-◌, ◌%◌, ◌>>>◌, arith, shl32}
use riscv_simulator.Prelude.{if-lt, div-lt, sext32-lt, sra32-lt, pattern32-lt, bit_and-mask}
use riscv_simulator.State.{Cpu}
use riscv_simulator.State.Valid.{CpuIsValid, if-CpuIsValid, set_register-IsValid}
use riscv_simulator.Exception.Valid.{illegal-IsValid}
use riscv_simulator.Inst.Words.{
  low_word, set_word, addw, subw, mulw, divw, divuw, remw, remuw, execute_addiw, execute_slliw,
  execute_srliw, execute_sraiw, execute_i_32_type_instruction, word_op, wide_op, shift_op,
  execute_r_32_type_instruction,
}

pub low_word-lt : (c : Cpu) (i : ℕ) → low_word c i < 2 ^ 32
unfolding low_word
low_word-lt c i = omega (arith, bit_and-mask 32 (c.registers i))

-- An operation from 32-bit patterns to one of `w` bits; and a shift, by any amount.
abbrev Takes32 : ℕ → (ℕ → ℕ → ℕ) → Type 0
Takes32 w op = (x y : ℕ) → x < 2 ^ 32 → y < 2 ^ 32 → op x y < 2 ^ w

abbrev Shifts32 : (ℕ → ℕ → ℕ) → Type 0
Shifts32 op = (x k : ℕ) → x < 2 ^ 32 → op x k < 2 ^ 32

addw-Takes32 : Takes32 32 addw
unfolding addw
addw-Takes32 x y h g = omega arith

subw-Takes32 : Takes32 32 subw
unfolding subw
subw-Takes32 x y h g = omega arith

mulw-Takes32 : Takes32 32 mulw
unfolding mulw
mulw-Takes32 x y h g = omega arith

all_ones-lt : 2 ^ 64 - 1 < 2 ^ 64
all_ones-lt = omega arith

zero-lt : 0 < 2 ^ 64
zero-lt = omega arith

divw-Takes32 : Takes32 64 divw
unfolding divw
divw-Takes32 x y h g = search (if-lt, all_ones-lt, sext32-lt, pattern32-lt)

divuw-Takes32 : Takes32 64 divuw
unfolding divuw
divuw-Takes32 x y h g = ground (arith, div-lt {b = 2 ^ 32} x y)

remw-Takes32 : Takes32 64 remw
unfolding remw
remw-Takes32 x y h g = search (if-lt, zero-lt, sext32-lt, pattern32-lt)

remuw-Takes32 : Takes32 64 remuw
unfolding remuw
remuw-Takes32 x y h g = ground arith

shl32-Shifts32 : Shifts32 shl32
shl32-Shifts32 x k h = omega arith

shr-Shifts32 : Shifts32 ◌>>>◌
shr-Shifts32 x k h = div-lt x (2 ^ k) h

module _ {c : Cpu} (valid : CpuIsValid c) where
  set_word-IsValid : {v : ℕ} (rd : ℕ) → v < 2 ^ 32 → CpuIsValid (set_word c rd v)
  unfolding set_word
  set_word-IsValid {v} rd h = set_register-IsValid rd valid (sext32-lt v h)

  word_op-IsValid :
      (op : ℕ → ℕ → ℕ) (instruction : ℕ) → Takes32 32 op → CpuIsValid (word_op op c instruction)
  unfolding word_op
  word_op-IsValid op instruction h = set_word-IsValid _ (h _ _ (low_word-lt c _) (low_word-lt c _))

  wide_op-IsValid :
      (op : ℕ → ℕ → ℕ) (instruction : ℕ) → Takes32 64 op → CpuIsValid (wide_op op c instruction)
  unfolding wide_op
  wide_op-IsValid op instruction h =
      set_register-IsValid _ valid (h _ _ (low_word-lt c _) (low_word-lt c _))

  shift_op-IsValid :
      (op : ℕ → ℕ → ℕ) (instruction : ℕ) → Shifts32 op → CpuIsValid (shift_op op c instruction)
  unfolding shift_op
  shift_op-IsValid op instruction h = set_word-IsValid _ (h _ _ (low_word-lt c _))

  pub execute_i_32_type_instruction-IsValid :
      (instruction : ℕ) → CpuIsValid (execute_i_32_type_instruction c instruction)
  unfolding execute_i_32_type_instruction execute_addiw execute_slliw execute_srliw execute_sraiw
      addw
  execute_i_32_type_instruction-IsValid instruction =
      search
        (
          if-CpuIsValid, illegal-IsValid, set_word-IsValid, shr-Shifts32, sra32-lt, low_word-lt,
          u32-lt,
        )
        depth 10
    where
      u32-lt : (v : ℕ) → v % 2 ^ 32 < 2 ^ 32
      u32-lt v = omega arith

  pub execute_r_32_type_instruction-IsValid :
      (instruction : ℕ) → CpuIsValid (execute_r_32_type_instruction c instruction)
  unfolding execute_r_32_type_instruction
  execute_r_32_type_instruction-IsValid instruction =
      search
        (
          if-CpuIsValid, illegal-IsValid, word_op-IsValid, wide_op-IsValid, shift_op-IsValid,
          addw-Takes32, subw-Takes32, mulw-Takes32, divw-Takes32, divuw-Takes32, remw-Takes32,
          remuw-Takes32, shl32-Shifts32, shr-Shifts32, sra32-lt,
        )
        depth 12 fits 4000
