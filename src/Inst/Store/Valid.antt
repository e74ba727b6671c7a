-- ===== src/Inst/Store/Valid.antt =====
-- Stores keep every field within its width.
use riscv_simulator.Prelude.{ℕ, arith}
use riscv_simulator.CsrDefs.{cause_load_access_fault}
use riscv_simulator.State.{Cpu}
use riscv_simulator.State.Valid.{CpuIsValid, if-CpuIsValid, trap_occurred-IsValid, registers-lt}
use riscv_simulator.Exception.Valid.{raise_exception-IsValid, illegal-IsValid}
use riscv_simulator.Memory.Valid.{memory_write-IsValid}
use riscv_simulator.Inst.Store.{store_sized, store, execute_s_type_instruction}

module _ {c : Cpu} (valid : CpuIsValid c) where
  store_sized-IsValid : (funct3 rs2 addr : ℕ) → CpuIsValid (store_sized c funct3 rs2 addr)
  unfolding store_sized
  store_sized-IsValid funct3 rs2 addr =
      search (if-CpuIsValid, memory_write-IsValid, registers-lt, illegal-IsValid) depth 8

  store-IsValid : (funct3 rs2 addr : ℕ) → CpuIsValid (store c funct3 rs2 addr)
  unfolding store
  store-IsValid funct3 rs2 addr =
      if-CpuIsValid _
        (trap_occurred-IsValid
          (raise_exception-IsValid cause_load_access_fault valid (omega arith)))
        (store_sized-IsValid funct3 rs2 addr)

  pub execute_s_type_instruction-IsValid :
      (instruction : ℕ) → CpuIsValid (execute_s_type_instruction c instruction)
  unfolding execute_s_type_instruction
  execute_s_type_instruction-IsValid instruction = store-IsValid _ _ _
