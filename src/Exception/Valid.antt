-- ===== src/Exception/Valid.antt =====
-- Traps and interrupts keep every field within its width.
use riscv_simulator.Prelude.{ℕ, ◌*◌, ◌/◌, ◌^◌, ◌<◌, ◌==◌, bit_and, arith, word_bounds}
use riscv_simulator.Prelude.{bit_and-mask, and64-lt}
use riscv_simulator.CsrDefs.{
  csr_mepc, csr_mcause, csr_mtvec, csr_mstatus, csr_sepc, csr_scause, csr_stvec, csr_mip, prv_u,
  prv_s, mip_meip, mip_msip, cause_illegal_instruction, cause_machine_external_interrupt,
  cause_machine_timer_interrupt, cause_machine_software_interrupt,
}
use riscv_simulator.State.{Cpu}
use riscv_simulator.State.Valid.{
  CpuIsValid, if-CpuIsValid, ResultIsValid, result, if-ResultIsValid, pc-IsValid, priv-IsValid,
  pc_updated-IsValid, current_priority-IsValid, set_csr-IsValid,
}
use riscv_simulator.Exception.{
  save_priv, save_mie, enter_machine, enter_supervisor, raise_exception, clear_mip, take_external,
  take_timer, take_software, handle_interrupt,
}

save_priv-lt : (m p : ℕ) → m < 2 ^ 64 → p < 4 → save_priv m p < 2 ^ 64
unfolding save_priv
save_priv-lt m p h g = search (word_bounds, priv_shift-lt p g)
  where
    priv_shift-lt : (p : ℕ) → p < 4 → p * 2 ^ 11 < 2 ^ 64
    priv_shift-lt p g = omega arith

save_mie-lt : (m : ℕ) → m < 2 ^ 64 → save_mie m < 2 ^ 64
unfolding save_mie
save_mie-lt m h = search (word_bounds, mie_shift-lt m)
  where
    mie_shift-lt : (m : ℕ) → bit_and (m / 2 ^ 3) 0x1 * 2 ^ 7 < 2 ^ 64
    mie_shift-lt m = omega (arith, bit_and-mask 1 (m / 2 ^ 3))

module _ {c : Cpu} where
  enter_machine-IsValid :
      (cause : ℕ) → CpuIsValid c → cause < 2 ^ 64 → CpuIsValid (enter_machine c cause)
  unfolding enter_machine
  enter_machine-IsValid cause valid h =
      let v1 = set_csr-IsValid csr_mepc valid valid.pc_lt in
      let v2 = set_csr-IsValid csr_mcause v1 h in
      let v3 = pc-IsValid v2 (v2.csr_lt csr_mtvec) in
      let v4 =
        set_csr-IsValid csr_mstatus v3 (save_priv-lt _ _ (v3.csr_lt csr_mstatus) v3.priv_lt) in
      let v5 = set_csr-IsValid csr_mstatus v4 (save_mie-lt _ (v4.csr_lt csr_mstatus)) in
      pc_updated-IsValid v5

  enter_supervisor-IsValid :
      (cause : ℕ) → CpuIsValid c → cause < 2 ^ 64 → CpuIsValid (enter_supervisor c cause)
  unfolding enter_supervisor
  enter_supervisor-IsValid cause valid h =
      let v1 = set_csr-IsValid csr_sepc valid valid.pc_lt in
      let v2 = set_csr-IsValid csr_scause v1 h in pc-IsValid v2 (v2.csr_lt csr_stvec)

  pub raise_exception-IsValid :
      (cause : ℕ) → CpuIsValid c → cause < 2 ^ 64 → CpuIsValid (raise_exception c cause)
  unfolding raise_exception
  raise_exception-IsValid cause valid h =
      if-CpuIsValid (c.priv == prv_u)
        (priv-IsValid (enter_machine-IsValid cause valid h) (omega arith))
        (if-CpuIsValid (c.priv == prv_s) (enter_supervisor-IsValid cause valid h)
          (enter_machine-IsValid cause valid h))

  -- The trap that the handlers raise on what they do not know.
  pub illegal-IsValid : CpuIsValid c → CpuIsValid (raise_exception c cause_illegal_instruction)
  illegal-IsValid valid = raise_exception-IsValid cause_illegal_instruction valid (omega arith)

  clear_mip-IsValid : (mask : ℕ) → CpuIsValid c → CpuIsValid (clear_mip c mask)
  unfolding clear_mip
  clear_mip-IsValid mask valid = set_csr-IsValid csr_mip valid (and64-lt _ _ (valid.csr_lt csr_mip))

module _ {c : Cpu} (valid : CpuIsValid c) where
  take_external-IsValid : CpuIsValid (take_external c)
  unfolding take_external
  take_external-IsValid = clear_mip-IsValid mip_meip (
      raise_exception-IsValid cause_machine_external_interrupt
        (current_priority-IsValid valid (omega arith)) (omega arith))

  take_timer-IsValid : CpuIsValid (take_timer c)
  unfolding take_timer
  take_timer-IsValid =
      raise_exception-IsValid cause_machine_timer_interrupt
        (current_priority-IsValid valid (omega arith)) (omega arith)

  take_software-IsValid : CpuIsValid (take_software c)
  unfolding take_software
  take_software-IsValid =
      raise_exception-IsValid cause_machine_software_interrupt
        (clear_mip-IsValid mip_msip (current_priority-IsValid valid (omega arith))) (omega arith)

  pub handle_interrupt-IsValid : ResultIsValid (handle_interrupt c)
  unfolding handle_interrupt
  handle_interrupt-IsValid =
      search
        (if-ResultIsValid, result, take_external-IsValid, take_timer-IsValid, take_software-IsValid)
        depth 8
