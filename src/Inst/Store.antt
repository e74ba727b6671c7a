-- ===== src/Inst/Store.antt =====
-- src/s_inst.c: stores.
pub mod RoundTrip
pub mod Valid
use riscv_simulator.Prelude.{ℕ, true, ◌+◌, ltb, leb, ◌==◌, ◌||◌, if◌then◌else◌, u64, sext32}
use riscv_simulator.Defs.{funct3_sb, funct3_sh, funct3_sw, funct3_sd}
use riscv_simulator.CsrDefs.{cause_illegal_instruction, cause_load_access_fault}
use riscv_simulator.State.{Cpu}
use riscv_simulator.Memory.{memory_write, memory_end_addr}
use riscv_simulator.Exception.{raise_exception}
use riscv_simulator.Inst.Decode.{funct3_of, rs1_of, rs2_of, imm_s}

-- The `switch` and the write behind it. In the `default` case the write is made too, with size 0,
-- after the trap.
unfoldable pub store_sized : Cpu → ℕ → ℕ → ℕ → Cpu
store_sized cpu funct3 rs2 addr =
    if funct3 == funct3_sb
    then memory_write cpu addr (cpu.registers rs2) 1
    else if funct3 == funct3_sh
    then memory_write cpu addr (cpu.registers rs2) 2
    else if funct3 == funct3_sw
    then memory_write cpu addr (cpu.registers rs2) 4
    else if funct3 == funct3_sd
    then memory_write cpu addr (cpu.registers rs2) 8
    else (let trapped = raise_exception cpu cause_illegal_instruction in
        memory_write trapped addr (trapped.registers rs2) 0)

unfoldable pub store : Cpu → ℕ → ℕ → ℕ → Cpu
store cpu funct3 rs2 addr =
    if ltb addr 0x100 || leb memory_end_addr addr
    then record (raise_exception cpu cause_load_access_fault) { trap_occurred = true }
    else store_sized cpu funct3 rs2 addr

unfoldable pub execute_s_type_instruction : Cpu → ℕ → Cpu
execute_s_type_instruction cpu instruction =
    store cpu (funct3_of instruction) (rs2_of instruction)
      (u64 (cpu.registers (rs1_of instruction) + sext32 (imm_s instruction)))
