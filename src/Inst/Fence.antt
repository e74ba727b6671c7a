-- ===== src/Inst/Fence.antt =====
-- src/fence_inst.c: fences. The host's barrier orders the program's threads and changes no state.
use riscv_simulator.Prelude.{ℕ, bit_and, ◌==◌, if◌then◌else◌}
use riscv_simulator.State.{Cpu}

unfoldable pub execute_fence : Cpu → ℕ → Cpu
execute_fence cpu instruction = cpu

unfoldable pub execute_fence_i : Cpu → ℕ → Cpu
execute_fence_i cpu instruction = cpu

unfoldable pub execute_fence_tso : Cpu → ℕ → Cpu
execute_fence_tso cpu instruction = cpu

unfoldable pub execute_misc_mem_instructions : Cpu → ℕ → Cpu
unfolding execute_fence execute_fence_i execute_fence_tso
execute_misc_mem_instructions cpu instruction =
    if bit_and instruction 0x07000000 == 0x00000000
    then execute_fence cpu instruction
    else if bit_and instruction 0x07000000 == 0x01000000
    then execute_fence_i cpu instruction
    else if bit_and instruction 0xF00FFFFF == 0x8000000F
    then execute_fence_tso cpu instruction
    else cpu
