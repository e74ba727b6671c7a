-- ===== src/Inst/Jump/Valid.antt =====
-- Jumps keep every field within its width.
use riscv_simulator.Prelude.{ℕ, u64-lt, and64-lt}
use riscv_simulator.State.{Cpu}
use riscv_simulator.State.Valid.{CpuIsValid, if-CpuIsValid, set_register-IsValid, pc-IsValid}
use riscv_simulator.Inst.Jump.{link, jal, jalr, execute_j_type_instruction}

module _ {c : Cpu} (valid : CpuIsValid c) where
  link-IsValid : (rd : ℕ) → CpuIsValid (link c rd)
  unfolding link
  link-IsValid rd = if-CpuIsValid _ (set_register-IsValid rd valid (u64-lt _)) valid

  jal-IsValid : (instruction : ℕ) → CpuIsValid (jal c instruction)
  unfolding jal
  jal-IsValid instruction = pc-IsValid (link-IsValid _) (u64-lt _)

  jalr-IsValid : (instruction : ℕ) → CpuIsValid (jalr c instruction)
  unfolding jalr
  jalr-IsValid instruction = pc-IsValid (link-IsValid _) (and64-lt _ _ (u64-lt _))

  pub execute_j_type_instruction-IsValid :
      (instruction : ℕ) → CpuIsValid (execute_j_type_instruction c instruction)
  unfolding execute_j_type_instruction
  execute_j_type_instruction-IsValid instruction =
      if-CpuIsValid _ (jal-IsValid instruction) (if-CpuIsValid _ (jalr-IsValid instruction) valid)
