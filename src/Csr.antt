-- ===== src/Csr.antt =====
-- src/csr.c: the control and status registers, the returns from traps, and the system instructions.
pub mod Valid
use riscv_simulator.Prelude.{ℕ, Bool, true, ◌^◌, bit_and, bit_or, ltb, leb, ◌==◌, ◌!=◌}
use riscv_simulator.Prelude.{◌&&◌, if◌then◌else◌, not32, not64, ◌>>>◌}
use riscv_simulator.Defs.{rd_field, rs1_field, rs2_field}
use riscv_simulator.CsrDefs.{
  csr_ustatus, csr_uepc, csr_sstatus, csr_sepc, csr_mstatus, csr_mepc, prv_u, prv_s, mstatus_mie,
  mstatus_mpp, mstatus_mpie, sstatus_spie, sstatus_spp, cause_illegal_instruction, cause_breakpoint,
  cause_user_ecall, cause_supervisor_ecall, cause_machine_ecall, opcode_ecall, opcode_ebreak,
  opcode_csrrw, opcode_csrrs, opcode_csrrc, opcode_csrrwi, opcode_csrrsi, opcode_csrrci,
  opcode_mret, opcode_sret, opcode_uret, opcode_wfi,
}
use riscv_simulator.State.{Cpu, set_register, set_csr}
use riscv_simulator.Mmu.{flush_tlb, flush_tlb_entry}
use riscv_simulator.Exception.{raise_exception}
use riscv_simulator.Inst.Decode.{funct3_of}

unfoldable pub read_csr : Cpu → ℕ → ℕ
read_csr cpu csr = if ltb csr 4096 then cpu.csr csr else 0

unfoldable pub write_csr : Cpu → ℕ → ℕ → Cpu
write_csr cpu csr value = if ltb csr 4096 then set_csr cpu csr value else cpu

-- `(instruction >> 20) & 0xFFF`
unfoldable pub csr_of : ℕ → ℕ
csr_of instruction = bit_and (instruction >>> 20) 0xFFF

-- The six handlers read the register, write a new value of it, and give the old one to rd.
unfoldable pub exchange : (ℕ → ℕ → ℕ) → Cpu → ℕ → ℕ → ℕ → Cpu
exchange next cpu rd csr operand =
    let old_value = read_csr cpu csr in
    set_register (write_csr cpu csr (next old_value operand)) rd old_value

-- The values written. `~imm` of a `uint32_t` stays 32 bits wide.
unfoldable pub next_write : ℕ → ℕ → ℕ
next_write old operand = operand

unfoldable pub next_set : ℕ → ℕ → ℕ
next_set old operand = bit_or old operand

unfoldable pub next_clear : ℕ → ℕ → ℕ
next_clear old operand = bit_and old (not64 operand)

unfoldable pub next_clear_imm : ℕ → ℕ → ℕ
next_clear_imm old imm = bit_and old (not32 imm)

-- `execute_csrrw`, `execute_csrrs`, `execute_csrrc`: the operand is a register.
unfoldable pub csr_register : (ℕ → ℕ → ℕ) → Cpu → ℕ → Cpu
csr_register next cpu instruction =
    exchange next cpu (rd_field instruction) (csr_of instruction)
      (cpu.registers (rs1_field instruction))

-- `execute_csrrwi`, `execute_csrrsi`, `execute_csrrci`: the operand is the field itself.
unfoldable pub csr_immediate : (ℕ → ℕ → ℕ) → Cpu → ℕ → Cpu
csr_immediate next cpu instruction =
    exchange next cpu (rd_field instruction) (csr_of instruction) (rs1_field instruction)

-- MRET on `mstatus`: MPP is cleared, MIE takes MPIE, MPIE is set.
unfoldable pub mret_mstatus : ℕ → ℕ
mret_mstatus mstatus =
    let m1 = bit_and mstatus (not64 mstatus_mpp) in
    let m2 =
      if bit_and (m1 >>> 7) 0x1 != 0
      then bit_or m1 mstatus_mie
      else bit_and m1 (not64 mstatus_mie) in
    bit_or m2 mstatus_mpie

unfoldable pub execute_mret : Cpu → Cpu
execute_mret cpu =
    let mstatus = read_csr cpu csr_mstatus in
    let c1 = record cpu { priv = bit_and (mstatus >>> 11) 0x3 } in
    let c2 = write_csr c1 csr_mstatus (mret_mstatus mstatus) in
    record c2 { pc = c2.csr csr_mepc; current_priority = 0; pc_updated = true }

-- SRET on `sstatus`: SIE takes SPIE, SPP is cleared, SPIE is set.
unfoldable pub sret_sstatus : ℕ → ℕ
sret_sstatus sstatus =
    let s1 =
      if bit_and (sstatus >>> 5) 0x1 != 0
      then bit_or sstatus (2 ^ 1)
      else bit_and sstatus (not64 (2 ^ 1)) in
    bit_or (bit_and s1 (not64 sstatus_spp)) sstatus_spie

unfoldable pub execute_sret : Cpu → Cpu
execute_sret cpu =
    let sstatus = read_csr cpu csr_sstatus in
    let c1 = record cpu { priv = bit_and (sstatus >>> 8) 0x1 } in
    let c2 = write_csr c1 csr_sstatus (sret_sstatus sstatus) in
    record c2 {
      pc = c2.csr csr_sepc;
      pc_updated = true;
      current_priority = 0;
      trap_occurred = true;
    }

unfoldable pub execute_uret : Cpu → Cpu
execute_uret cpu = record cpu {
  pc = cpu.csr csr_uepc;
  pc_updated = true;
  priv = bit_and (cpu.csr csr_ustatus >>> 8) 0x1;
  current_priority = 0;
}

-- The fences of the translation cache. No instruction of `execute_system_instruction` reaches them.
unfoldable pub execute_sfence_vma : Cpu → ℕ → Cpu
execute_sfence_vma cpu instruction =
    let rs1 = rs1_field instruction in
    let rs2 = rs2_field instruction in
    if rs1 == 0 && rs2 == 0
    then record cpu { mmu = flush_tlb cpu.mmu }
    else record cpu { mmu = flush_tlb_entry cpu.mmu (cpu.registers rs1) (cpu.registers rs2) }

unfoldable pub execute_sinval_vma : Cpu → ℕ → Cpu
execute_sinval_vma cpu instruction = record cpu {
  mmu =
      flush_tlb_entry cpu.mmu (cpu.registers (rs1_field instruction))
        (cpu.registers (rs2_field instruction));
}

unfoldable pub execute_sfence_w_inval : Cpu → ℕ → Cpu
execute_sfence_w_inval cpu instruction = record cpu { mmu = flush_tlb cpu.mmu }

unfoldable pub ecall_cause : ℕ → ℕ
ecall_cause priv =
    if priv == prv_u
    then cause_user_ecall
    else if priv == prv_s
    then cause_supervisor_ecall
    else cause_machine_ecall

unfoldable pub execute_ecall : Cpu → Cpu
execute_ecall cpu = raise_exception cpu (ecall_cause cpu.priv)

-- The `switch` over the six register instructions.
unfoldable pub csr_instruction : Cpu → ℕ → ℕ → Cpu
csr_instruction cpu funct3 instruction =
    if funct3 == opcode_csrrw
    then csr_register next_write cpu instruction
    else if funct3 == opcode_csrrs
    then csr_register next_set cpu instruction
    else if funct3 == opcode_csrrc
    then csr_register next_clear cpu instruction
    else if funct3 == opcode_csrrwi
    then csr_immediate next_write cpu instruction
    else if funct3 == opcode_csrrsi
    then csr_immediate next_set cpu instruction
    else if funct3 == opcode_csrrci
    then csr_immediate next_clear_imm cpu instruction
    else raise_exception cpu cause_illegal_instruction

-- The `switch` over the rest, by the upper twelve bits.
unfoldable pub privileged_instruction : Cpu → ℕ → Cpu
privileged_instruction cpu imm =
    if imm == opcode_ecall
    then execute_ecall cpu
    else if imm == opcode_ebreak
    then raise_exception cpu cause_breakpoint
    else if imm == opcode_sret
    then execute_sret cpu
    else if imm == opcode_mret
    then execute_mret cpu
    else if imm == opcode_uret
    then execute_uret cpu
    else if imm == opcode_wfi
    then cpu
    else raise_exception cpu cause_illegal_instruction

-- User mode is refused the three register forms.
unfoldable pub refused : ℕ → ℕ → Bool
refused priv funct3 =
    priv == prv_u && funct3 != opcode_csrrwi && funct3 != opcode_csrrsi && funct3 != opcode_csrrci

unfoldable pub execute_system_instruction : Cpu → ℕ → Cpu
execute_system_instruction cpu instruction =
    let funct3 = funct3_of instruction in
    if leb 0x1 funct3 && leb funct3 0x7
    then (if refused cpu.priv funct3
        then raise_exception cpu cause_illegal_instruction
        else csr_instruction cpu funct3 instruction)
    else privileged_instruction cpu (instruction >>> 20)
