-- ===== src/Exception/Arbitration.antt =====
-- Which interrupt is taken.
use riscv_simulator.Prelude.{
  ℕ, true, false, ◌≡◌, arith, ◌≤◌, ◌<◌, ◌⊎◌, inl, inr, bit, bit_and, bit_and-single, ◌^◌,
}
use riscv_simulator.CsrDefs.{csr_mstatus}
use riscv_simulator.State.{Cpu, set_csr}
use riscv_simulator.Exception.{
  handle_interrupt, external_enabled, timer_due, software_due, take_external, take_timer,
  take_software, raise_exception, enter_machine, enter_supervisor, clear_mip,
}

mie-off : (x : ℕ) → bit x 3 ≡ 0 → bit_and x (2 ^ 3) ≡ 0
mie-off x h = omega (arith, bit_and-single 3 x)

disabled : (c : Cpu) → bit (c.csr csr_mstatus) 3 ≡ 0 → handle_interrupt c ≡ (false, c)
unfolding handle_interrupt
disabled c h = ground (arith, mie-off (c.csr csr_mstatus) h)

busy : (c : Cpu) → 2 ≤ c.current_priority → handle_interrupt c ≡ (false, c)
unfolding handle_interrupt external_enabled timer_due software_due
busy c h = ground arith

-- While MIE (bit 3 of `mstatus`) is clear, and while a timer or an external interrupt is being handled
-- (the priority is 2 or more), no interrupt is taken and nothing changes.
pub handle_interrupt-masked :
    (c : Cpu)
    → (bit (c.csr csr_mstatus) 3 ≡ 0) ⊎ (2 ≤ c.current_priority)
    → handle_interrupt c ≡ (false, c)
handle_interrupt-masked c (inl h) = disabled c h
handle_interrupt-masked c (inr h) = busy c h

raise_exception-priority :
    (c : Cpu) (cause : ℕ) → (raise_exception c cause).current_priority ≡ c.current_priority
unfolding raise_exception enter_machine enter_supervisor set_csr
raise_exception-priority c cause = ground arith

take_external-priority : (c : Cpu) → (take_external c).current_priority ≡ 3
unfolding take_external clear_mip set_csr
take_external-priority c = raise_exception-priority _ _

take_timer-priority : (c : Cpu) → (take_timer c).current_priority ≡ 2
unfolding take_timer
take_timer-priority c = raise_exception-priority _ _

take_software-priority : (c : Cpu) → (take_software c).current_priority ≡ 1
unfolding take_software clear_mip set_csr
take_software-priority c = raise_exception-priority _ _

level-true :
    (c : Cpu)
    → (handle_interrupt c).0 ≡ true
    → c.current_priority < (handle_interrupt c).1.current_priority
unfolding handle_interrupt external_enabled timer_due software_due
level-true c h =
    ground (arith, take_external-priority c, take_timer-priority c, take_software-priority c)

level-false : (c : Cpu) → (handle_interrupt c).0 ≡ false → (handle_interrupt c).1 ≡ c
unfolding handle_interrupt
level-false c h = ground arith

-- The interrupt level: if `handle_interrupt` reports an interrupt, `current_priority` has risen; if it
-- reports none, the processor is as it was.
pub handle_interrupt-level :
    (c : Cpu)
    → ((handle_interrupt c).0 ≡ true → c.current_priority < (handle_interrupt c).1.current_priority)
      × ((handle_interrupt c).0 ≡ false → (handle_interrupt c).1 ≡ c)
handle_interrupt-level c = (level-true c, level-false c)
