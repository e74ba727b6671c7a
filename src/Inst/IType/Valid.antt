-- ===== src/Inst/IType/Valid.antt =====
-- The handler of src/i_inst.c keeps every field within its width.
use riscv_simulator.Prelude.{ℕ, ◌^◌, ◌<◌, word_bounds}
use riscv_simulator.State.{Cpu}
use riscv_simulator.State.Valid.{CpuIsValid, valid_rules}
use riscv_simulator.Inst.IType.{i_type, execute_i_type_instruction}
use riscv_simulator.Inst.Decode.Bounds.{imm_i-lt}

i_type-IsValid :
    {c : Cpu} (rd funct3 rs1 imm : ℕ)
    → CpuIsValid c
    → imm < 2 ^ 32
    → CpuIsValid (i_type c rd funct3 rs1 imm)
unfolding i_type
i_type-IsValid rd funct3 rs1 imm valid h = search (valid_rules, word_bounds) depth 16 fits 4000

pub execute_i_type_instruction-IsValid :
    {c : Cpu} (instruction : ℕ)
    → CpuIsValid c
    → CpuIsValid (execute_i_type_instruction c instruction)
unfolding execute_i_type_instruction
execute_i_type_instruction-IsValid instruction valid =
    i_type-IsValid _ _ _ _ valid (imm_i-lt instruction)
