-- ===== src/Cpu/Valid.antt =====
-- Every instruction keeps every field of the state within its width.
use riscv_simulator.Prelude.{ℕ, ◌+◌, ◌^◌, ◌<◌, arith, if-lt, u64-lt, and64-lt}
use riscv_simulator.State.{Cpu}
use riscv_simulator.State.Valid.{
  CpuIsValid, if-CpuIsValid, set_register-IsValid, pc-IsValid, pc_updated-IsValid,
}
use riscv_simulator.Exception.Valid.{handle_interrupt-IsValid}
use riscv_simulator.Csr.Valid.{execute_system_instruction-IsValid}
use riscv_simulator.Inst.RType.Valid.{execute_r_type_instruction-IsValid}
use riscv_simulator.Inst.IType.Valid.{execute_i_type_instruction-IsValid}
use riscv_simulator.Inst.Words.Valid.{
  execute_i_32_type_instruction-IsValid, execute_r_32_type_instruction-IsValid,
}
use riscv_simulator.Inst.Load.Valid.{execute_load_instruction-IsValid}
use riscv_simulator.Inst.Store.Valid.{execute_s_type_instruction-IsValid}
use riscv_simulator.Inst.Branch.Valid.{execute_b_type_instruction-IsValid}
use riscv_simulator.Inst.Jump.Valid.{execute_j_type_instruction-IsValid}
use riscv_simulator.Inst.Fence.{execute_misc_mem_instructions}
use riscv_simulator.Inst.Atomic.Valid.{execute_atomic_instruction-IsValid}
use riscv_simulator.Inst.Float.{Fpu}
use riscv_simulator.Inst.Float.Valid.{execute_f_extension_instruction-IsValid}
use riscv_simulator.Cpu.{auipc, lui, pc_set, dispatch, before, after, cpu_execute}

pc_set-IsValid : {c : Cpu} → CpuIsValid c → CpuIsValid (pc_set c)
unfolding pc_set
pc_set-IsValid valid = pc_updated-IsValid valid

module _ {c : Cpu} (valid : CpuIsValid c) where
  auipc-IsValid : (instruction : ℕ) → CpuIsValid (auipc c instruction)
  unfolding auipc
  auipc-IsValid instruction = set_register-IsValid _ valid (u64-lt _)

  lui-IsValid : (instruction : ℕ) → instruction < 2 ^ 32 → CpuIsValid (lui c instruction)
  unfolding lui
  lui-IsValid instruction h = set_register-IsValid _ valid (and64-lt _ _ (omega arith))

  fence-IsValid : (instruction : ℕ) → CpuIsValid (execute_misc_mem_instructions c instruction)
  unfolding execute_misc_mem_instructions
  fence-IsValid instruction = search (if-CpuIsValid)

  dispatch-IsValid :
      (fpu : Fpu) (instruction : ℕ) → instruction < 2 ^ 32 → CpuIsValid (dispatch fpu c instruction)
  unfolding dispatch
  dispatch-IsValid fpu instruction h =
      search
        (
          if-CpuIsValid, execute_r_type_instruction-IsValid, execute_i_type_instruction-IsValid,
          execute_s_type_instruction-IsValid, execute_load_instruction-IsValid, auipc-IsValid,
          lui-IsValid, pc_set-IsValid, execute_b_type_instruction-IsValid,
          execute_j_type_instruction-IsValid, execute_i_32_type_instruction-IsValid,
          execute_r_32_type_instruction-IsValid, fence-IsValid, execute_system_instruction-IsValid,
          execute_atomic_instruction-IsValid, execute_f_extension_instruction-IsValid,
        )
        depth 24 fits 8000

  before-IsValid : CpuIsValid (before c)
  unfolding before
  before-IsValid = pc_updated-IsValid (set_register-IsValid 0 valid (omega arith))

  after-IsValid : CpuIsValid (after c)
  unfolding after
  after-IsValid =
      set_register-IsValid 0 (pc-IsValid valid (if-lt c.pc_updated valid.pc_lt (u64-lt (c.pc + 4))))
        (omega arith)

-- One step of the processor, on any 32-bit instruction and with any floating-point unit, keeps every
-- register, control register, memory byte and device register within the width of its C type, the
-- privilege among the four codes and the interrupt priority among the four levels.
pub cpu_execute-IsValid :
    (fpu : Fpu) (c : Cpu) (instruction : ℕ)
    → CpuIsValid c
    → instruction < 2 ^ 32
    → CpuIsValid (cpu_execute fpu c instruction)
unfolding cpu_execute
cpu_execute-IsValid fpu c instruction valid h =
    (handle_interrupt-IsValid
      (after-IsValid (dispatch-IsValid (before-IsValid valid) fpu instruction h))).cpu_valid
