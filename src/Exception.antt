-- ===== src/Exception.antt =====
-- src/exception.c: traps and interrupts.
pub mod Frame
pub mod Mstatus
pub mod Return
pub mod Arbitration
pub mod Valid
use riscv_simulator.Prelude.{ℕ, Bool, true, false, ◌*◌, ◌^◌, bit_and, bit_or, ltb, leb, ◌==◌}
use riscv_simulator.Prelude.{◌!=◌, ◌&&◌, if◌then◌else◌, not64, u32, ◌>>>◌}
use riscv_simulator.CsrDefs.{
  csr_stvec, csr_sepc, csr_scause, csr_mhartid, csr_mstatus, csr_mie, csr_mtvec, csr_mepc,
  csr_mcause, csr_mip, prv_u, prv_s, prv_m, mstatus_mie, mie_msie, mie_mtie, mie_meie, mstatus_mpp,
  mstatus_mpie, mip_msip, mip_meip, cause_machine_software_interrupt, cause_machine_timer_interrupt,
  cause_machine_external_interrupt, priority_machine_software_interrupt,
  priority_machine_timer_interrupt, priority_machine_external_interrupt,
}
use riscv_simulator.State.{Cpu, set_csr}
use riscv_simulator.Plic.{plic_check_interrupt}

-- The two assignments to `mstatus`: MPP takes the privilege, then MPIE takes MIE.
unfoldable pub save_priv : ℕ → ℕ → ℕ
save_priv mstatus priv = bit_or (bit_and mstatus (not64 mstatus_mpp)) (priv * 2 ^ 11)

unfoldable pub save_mie : ℕ → ℕ
save_mie mstatus =
    bit_or (bit_and mstatus (not64 mstatus_mpie)) (bit_and (mstatus >>> 3) 0x1 * 2 ^ 7)

-- The assignments that the cases `PRV_U` and `PRV_M` of `raise_exception` have in common, in order.
unfoldable pub enter_machine : Cpu → ℕ → Cpu
enter_machine cpu cause =
    let c1 = set_csr cpu csr_mepc cpu.pc in
    let c2 = set_csr c1 csr_mcause cause in
    let c3 = record c2 { pc = c2.csr csr_mtvec } in
    let c4 = set_csr c3 csr_mstatus (save_priv (c3.csr csr_mstatus) c3.priv) in
    let c5 = set_csr c4 csr_mstatus (save_mie (c4.csr csr_mstatus)) in
    record c5 { pc_updated = true }

-- The case `PRV_S`.
unfoldable pub enter_supervisor : Cpu → ℕ → Cpu
enter_supervisor cpu cause =
    let c1 = set_csr cpu csr_sepc cpu.pc in
    let c2 = set_csr c1 csr_scause cause in record c2 { pc = c2.csr csr_stvec }

unfoldable pub raise_exception : Cpu → ℕ → Cpu
raise_exception cpu cause =
    if cpu.priv == prv_u
    then record (enter_machine cpu cause) { priv = prv_m }
    else if cpu.priv == prv_s
    then enter_supervisor cpu cause
    else enter_machine cpu cause

-- The conditions of the three cases of `handle_interrupt`.
unfoldable pub external_enabled : Cpu → Bool
external_enabled cpu =
    bit_and (cpu.csr csr_mie) mie_meie != 0
    && bit_and (cpu.csr csr_mip) mip_meip != 0
    && ltb cpu.current_priority priority_machine_timer_interrupt

unfoldable pub timer_due : Cpu → Bool
timer_due cpu =
    bit_and (cpu.csr csr_mie) mie_mtie != 0
    && leb (cpu.clint.mtimecmp (cpu.csr csr_mhartid)) cpu.clint.mtime
    && ltb cpu.current_priority priority_machine_timer_interrupt

unfoldable pub software_due : Cpu → Bool
software_due cpu =
    bit_and (cpu.csr csr_mie) mie_msie != 0
    && bit_and (cpu.csr csr_mip) mip_msip != 0
    && ltb cpu.current_priority priority_machine_software_interrupt

-- `cpu->csr[CSR_MIP] &= ~mask`
unfoldable pub clear_mip : Cpu → ℕ → Cpu
clear_mip cpu mask = set_csr cpu csr_mip (bit_and (cpu.csr csr_mip) (not64 mask))

-- The bodies of the three cases.
unfoldable pub take_external : Cpu → Cpu
take_external cpu =
    clear_mip
      (raise_exception (record cpu { current_priority = priority_machine_external_interrupt })
        cause_machine_external_interrupt)
      mip_meip

unfoldable pub take_timer : Cpu → Cpu
take_timer cpu =
    raise_exception (record cpu { current_priority = priority_machine_timer_interrupt })
      cause_machine_timer_interrupt

unfoldable pub take_software : Cpu → Cpu
take_software cpu =
    raise_exception
      (clear_mip (record cpu { current_priority = priority_machine_software_interrupt }) mip_msip)
      cause_machine_software_interrupt

unfoldable pub handle_interrupt : Cpu → Bool × Cpu
handle_interrupt cpu =
    if bit_and (cpu.csr csr_mstatus) mstatus_mie == 0
    then (false, cpu)
    else if external_enabled cpu && plic_check_interrupt cpu.plic (u32 (cpu.csr csr_mhartid))
    then (true, take_external cpu)
    else if timer_due cpu
    then (true, take_timer cpu)
    else if software_due cpu
    then (true, take_software cpu)
    else (false, cpu)
