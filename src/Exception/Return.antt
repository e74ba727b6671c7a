-- ===== src/Exception/Return.antt =====
-- MRET undoes a trap.
use riscv_simulator.Prelude.{ℕ, ◌≡◌, ◌≢◌, arith, ◌<◌, bit_and, bit}
use riscv_simulator.Prelude.{◌>>>◌, if◌then◌else◌, ◌==◌, ap, ◌∙◌, Bool, true, false, ◌&&◌, u32}
use riscv_simulator.State.{Cpu, set_csr}
use riscv_simulator.CsrDefs.{
  mstatus_mie, csr_mstatus, csr_mepc, csr_mhartid, prv_s, mip_msip,
  cause_machine_external_interrupt, cause_machine_timer_interrupt, cause_machine_software_interrupt,
}
use riscv_simulator.Exception.{
  raise_exception, enter_machine, save_priv, save_mie, handle_interrupt, take_external, take_timer,
  take_software, clear_mip, external_enabled, timer_due, software_due,
}
use riscv_simulator.Plic.{plic_check_interrupt}
use riscv_simulator.Csr.{execute_mret, mret_mstatus, read_csr, write_csr}
use riscv_simulator.Exception.Frame.{raise_exception-registers, raise_exception-memory}
use riscv_simulator.Exception.Mstatus.{bit-trap, bit-mret, priv-saved}

-- What a trap and MRET change, with the state `c` before and `r` behind them.
pub record Resumes (c r : Cpu) : Type 0 where
  pub pc_eq : r.pc ≡ c.pc
  pub priv_eq : r.priv ≡ c.priv
  pub registers_eq : r.registers ≡ c.registers
  pub memory_eq : r.memory ≡ c.memory
  pub mstatus_eq :
      (i : ℕ)
      → i < 64
      → i ≢ 7
      → i ≢ 11
      → i ≢ 12
      → bit (r.csr csr_mstatus) i ≡ bit (c.csr csr_mstatus) i

module _ (c : Cpu) (cause : ℕ) (machine : c.priv ≢ prv_s) where
  trap-mstatus :
      (raise_exception c cause).csr csr_mstatus ≡ save_mie (save_priv (c.csr csr_mstatus) c.priv)
  unfolding raise_exception enter_machine set_csr
  trap-mstatus = ground arith

  trap-mepc : (raise_exception c cause).csr csr_mepc ≡ c.pc
  unfolding raise_exception enter_machine set_csr
  trap-mepc = ground arith

mret-pc : (t : Cpu) → (execute_mret t).pc ≡ t.csr csr_mepc
unfolding execute_mret write_csr set_csr
mret-pc t = ground arith

mret-priv : (t : Cpu) → (execute_mret t).priv ≡ bit_and (t.csr csr_mstatus >>> 11) 0x3
unfolding execute_mret write_csr read_csr set_csr
mret-priv t = ground arith

mret-mstatus : (t : Cpu) → (execute_mret t).csr csr_mstatus ≡ mret_mstatus (t.csr csr_mstatus)
unfolding execute_mret write_csr read_csr set_csr
mret-mstatus t = ground arith

mret-registers : (t : Cpu) → (execute_mret t).registers ≡ t.registers
unfolding execute_mret write_csr set_csr
mret-registers t = ground arith

mret-memory : (t : Cpu) → (execute_mret t).memory ≡ t.memory
unfolding execute_mret write_csr set_csr
mret-memory t = ground arith

-- MRET on a state that holds what a trap from `c` saves.
module _ (c t : Cpu) (h : c.priv < 4) where
  resumes :
      t.csr csr_mstatus ≡ save_mie (save_priv (c.csr csr_mstatus) c.priv)
      → t.csr csr_mepc ≡ c.pc
      → t.registers ≡ c.registers
      → t.memory ≡ c.memory
      → Resumes c (execute_mret t)
  resumes status epc registers memory =
      let m = c.csr csr_mstatus in
      record {
        pc_eq = mret-pc t ∙ epc;
        priv_eq = omega (
          arith,
          mret-priv t,
          ap (λ (w : ℕ). bit_and (w >>> 11) 0x3) status,
          priv-saved (save_mie (save_priv m c.priv)),
          bit-trap m c.priv 11 h (omega arith),
          bit-trap m c.priv 12 h (omega arith),
        );
        registers_eq = mret-registers t ∙ registers;
        memory_eq = mret-memory t ∙ memory;
        mstatus_eq = λ i g n7 n11 n12. ground (
          arith,
          ap (λ (w : ℕ). bit w i) (mret-mstatus t),
          ap (λ (w : ℕ). bit (mret_mstatus w) i) status,
          bit-mret (save_mie (save_priv m c.priv)) i g,
          bit-trap m c.priv i h g,
          bit-trap m c.priv 7 h (omega arith),
        );
      }

-- A trap from a valid privilege other than S, and MRET directly behind it, resume the program: the program
-- counter, the privilege, the registers and the memory are those before the trap, and so is every bit
-- of `mstatus`, MIE among them, except MPIE (7) and MPP (11 and 12).
pub mret-raise_exception :
    (c : Cpu) (cause : ℕ)
    → c.priv ≢ prv_s
    → c.priv < 4
    → Resumes c (execute_mret (raise_exception c cause))
mret-raise_exception c cause machine h =
    resumes c (raise_exception c cause) h (trap-mstatus c cause machine) (trap-mepc c cause machine)
      (raise_exception-registers c cause) (raise_exception-memory c cause)

module _ (c : Cpu) (machine : c.priv ≢ prv_s) (h : c.priv < 4) where
  mret-take_external : Resumes c (execute_mret (take_external c))
  unfolding take_external clear_mip set_csr
  mret-take_external =
      let c' = record c { current_priority = 3 } in
      resumes c (take_external c) h (trap-mstatus c' cause_machine_external_interrupt machine)
        (trap-mepc c' cause_machine_external_interrupt machine)
        (raise_exception-registers c' cause_machine_external_interrupt)
        (raise_exception-memory c' cause_machine_external_interrupt)

  mret-take_timer : Resumes c (execute_mret (take_timer c))
  unfolding take_timer
  mret-take_timer =
      let c' = record c { current_priority = 2 } in
      resumes c (take_timer c) h (trap-mstatus c' cause_machine_timer_interrupt machine)
        (trap-mepc c' cause_machine_timer_interrupt machine)
        (raise_exception-registers c' cause_machine_timer_interrupt)
        (raise_exception-memory c' cause_machine_timer_interrupt)

  mret-take_software : Resumes c (execute_mret (take_software c))
  unfolding take_software clear_mip set_csr
  mret-take_software =
      let c' = clear_mip (record c { current_priority = 1 }) mip_msip in
      resumes c (take_software c) h (trap-mstatus c' cause_machine_software_interrupt machine)
        (trap-mepc c' cause_machine_software_interrupt machine)
        (raise_exception-registers c' cause_machine_software_interrupt)
        (raise_exception-memory c' cause_machine_software_interrupt)

if-Resumes :
    (b : Bool) (c : Cpu) (p q : Bool × Cpu)
    → (p.0 ≡ true → Resumes c (execute_mret p.1))
    → (q.0 ≡ true → Resumes c (execute_mret q.1))
    → (if b then p else q).0 ≡ true
    → Resumes c (execute_mret (if b then p else q).1)
if-Resumes true c p q f g = f
if-Resumes false c p q f g = g

-- An interrupt taken from a valid privilege other than S, whichever of the three it is, and MRET
-- directly behind it, resume the program: program counter, privilege, registers, memory and the bits of
-- `mstatus` but MPIE and MPP are those before the interrupt.
pub mret-handle_interrupt :
    (c : Cpu)
    → c.priv ≢ prv_s
    → c.priv < 4
    → (handle_interrupt c).0 ≡ true
    → Resumes c (execute_mret (handle_interrupt c).1)
unfolding handle_interrupt
mret-handle_interrupt c machine h =
    if-Resumes (bit_and (c.csr csr_mstatus) mstatus_mie == 0) c _ _ (λ e. absurd (cc e))
      (if-Resumes (external_enabled c && plic_check_interrupt c.plic (u32 (c.csr csr_mhartid))) c _
        _ (λ e. mret-take_external c machine h)
        (if-Resumes (timer_due c) c _ _ (λ e. mret-take_timer c machine h)
          (if-Resumes (software_due c) c _ _ (λ e. mret-take_software c machine h)
            (λ e. absurd (cc e)))))
