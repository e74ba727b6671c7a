-- ===== src/Inst/Branch/Valid.antt =====
-- Branches keep every field within its width.
use riscv_simulator.Prelude.{ℕ, if-lt, u64-lt}
use riscv_simulator.State.{Cpu}
use riscv_simulator.State.Valid.{CpuIsValid, pc-IsValid}
use riscv_simulator.Inst.Branch.{execute_b_type_instruction}

pub execute_b_type_instruction-IsValid :
    {c : Cpu} (instruction : ℕ)
    → CpuIsValid c
    → CpuIsValid (execute_b_type_instruction c instruction)
unfolding execute_b_type_instruction
execute_b_type_instruction-IsValid instruction valid =
    pc-IsValid valid (if-lt _ (u64-lt _) (u64-lt _))
