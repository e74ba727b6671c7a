-- ===== src/Inst/Load.antt =====
-- src/l_inst.c: loads. A load from a device may change the device.
pub mod Valid
use riscv_simulator.Prelude.{ℕ, Bool, true, false, ◌+◌, ◌==◌, if◌then◌else◌, u8, u16, u32, u64}
use riscv_simulator.Prelude.{sext8, sext16, sext32}
use riscv_simulator.Defs.{funct3_lb, funct3_lh, funct3_lw, funct3_ld, funct3_lbu, funct3_lhu}
use riscv_simulator.CsrDefs.{cause_illegal_instruction}
use riscv_simulator.State.{Cpu, set_register}
use riscv_simulator.Memory.{memory_read}
use riscv_simulator.Exception.{raise_exception}
use riscv_simulator.Inst.Decode.{rd_of, funct3_of, rs1_of, imm_i}

-- `cpu->registers[rd] = (cast) memory_read(cpu->memory, address, size, is_signed)`
unfoldable pub load_into : Cpu → ℕ → (ℕ → ℕ) → ℕ → ℕ → Bool → Cpu
load_into cpu rd cast address size is_signed =
    let (value, cpu') = memory_read cpu address size is_signed in set_register cpu' rd (cast value)

unfoldable pub load : Cpu → ℕ → ℕ → ℕ → Cpu
load cpu funct3 rd address =
    if funct3 == funct3_lb
    then load_into cpu rd (λ v. sext8 (u8 v)) address 1 true
    else if funct3 == funct3_lh
    then load_into cpu rd (λ v. sext16 (u16 v)) address 2 true
    else if funct3 == funct3_lw
    then load_into cpu rd (λ v. sext32 (u32 v)) address 4 true
    else if funct3 == funct3_ld
    then load_into cpu rd u64 address 8 true
    else if funct3 == funct3_lbu
    then load_into cpu rd u8 address 1 false
    else if funct3 == funct3_lhu
    then load_into cpu rd u16 address 2 false
    else raise_exception cpu cause_illegal_instruction

unfoldable pub execute_load_instruction : Cpu → ℕ → Cpu
execute_load_instruction cpu instruction =
    load cpu (funct3_of instruction) (rd_of instruction)
      (u64 (cpu.registers (rs1_of instruction) + sext32 (imm_i instruction)))
