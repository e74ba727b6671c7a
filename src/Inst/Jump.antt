-- ===== src/Inst/Jump.antt =====
-- src/j_inst.c: JAL and JALR.
pub mod Valid
use riscv_simulator.Prelude.{ℕ, ◌+◌, bit_and, ◌==◌, ◌!=◌, if◌then◌else◌, u64, not64, sext32}
use riscv_simulator.Defs.{opcode_jal, opcode_jalr}
use riscv_simulator.State.{Cpu, set_register}
use riscv_simulator.Inst.Decode.{rd_of, rs1_of, imm_i, imm_j}

-- `if (rd != 0) cpu->registers[rd] = cpu->pc + 4;`
unfoldable pub link : Cpu → ℕ → Cpu
link cpu rd = if rd != 0 then set_register cpu rd (u64 (cpu.pc + 4)) else cpu

unfoldable pub jal : Cpu → ℕ → Cpu
jal cpu instruction =
    let linked = link cpu (rd_of instruction) in
    record linked { pc = u64 (linked.pc + sext32 (imm_j instruction)) }

-- rs1 is read behind the write of rd.
unfoldable pub jalr : Cpu → ℕ → Cpu
jalr cpu instruction =
    let linked = link cpu (rd_of instruction) in
    record linked {
      pc =
          bit_and (u64 (linked.registers (rs1_of instruction) + sext32 (imm_i instruction)))
            (not64 1);
    }

unfoldable pub execute_j_type_instruction : Cpu → ℕ → Cpu
execute_j_type_instruction cpu instruction =
    if bit_and instruction 0x7F == opcode_jal
    then jal cpu instruction
    else if bit_and instruction 0x7F == opcode_jalr
    then jalr cpu instruction
    else cpu
