-- ===== src/Inst/RType/Valid.antt =====
-- The handler of src/r_inst.c keeps every field within its width.
use riscv_simulator.Prelude.{ℕ, word_bounds}
use riscv_simulator.State.{Cpu}
use riscv_simulator.State.Valid.{CpuIsValid, if-CpuIsValid, valid_rules}
use riscv_simulator.Inst.MExtension.Valid.{execute_m_extension_instruction-IsValid}
use riscv_simulator.Inst.RType.{r_type, execute_r_type_instruction}

module _ {c : Cpu} (valid : CpuIsValid c) where
  r_type-IsValid : (rd funct3 rs1 rs2 funct7 : ℕ) → CpuIsValid (r_type c rd funct3 rs1 rs2 funct7)
  unfolding r_type
  r_type-IsValid rd funct3 rs1 rs2 funct7 = search (valid_rules, word_bounds) depth 16 fits 4000

  pub execute_r_type_instruction-IsValid :
      (instruction : ℕ) → CpuIsValid (execute_r_type_instruction c instruction)
  unfolding execute_r_type_instruction
  execute_r_type_instruction-IsValid instruction =
      if-CpuIsValid _ (execute_m_extension_instruction-IsValid valid instruction)
        (r_type-IsValid _ _ _ _ _)
