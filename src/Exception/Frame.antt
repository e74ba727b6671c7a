-- ===== src/Exception/Frame.antt =====
-- What traps and interrupts leave alone.
use riscv_simulator.Prelude.{ℕ, ◌≡◌, arith}
use riscv_simulator.State.{Cpu, set_csr}
use riscv_simulator.Exception.{
  enter_machine, enter_supervisor, raise_exception, clear_mip, take_external, take_timer,
  take_software, handle_interrupt,
}

pub raise_exception-registers :
    (c : Cpu) (cause : ℕ) → (raise_exception c cause).registers ≡ c.registers
unfolding raise_exception enter_machine enter_supervisor set_csr
raise_exception-registers c cause = ground arith

pub raise_exception-memory : (c : Cpu) (cause : ℕ) → (raise_exception c cause).memory ≡ c.memory
unfolding raise_exception enter_machine enter_supervisor set_csr
raise_exception-memory c cause = ground arith

pub take_external-registers : (c : Cpu) → (take_external c).registers ≡ c.registers
unfolding take_external clear_mip set_csr
take_external-registers c = raise_exception-registers _ _

pub take_timer-registers : (c : Cpu) → (take_timer c).registers ≡ c.registers
unfolding take_timer
take_timer-registers c = raise_exception-registers _ _

pub take_software-registers : (c : Cpu) → (take_software c).registers ≡ c.registers
unfolding take_software clear_mip set_csr
take_software-registers c = raise_exception-registers _ _

pub handle_interrupt-registers : (c : Cpu) → (handle_interrupt c).1.registers ≡ c.registers
unfolding handle_interrupt
handle_interrupt-registers c =
    ground (arith, take_external-registers c, take_timer-registers c, take_software-registers c)
