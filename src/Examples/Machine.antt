-- ===== src/Examples/Machine.antt =====
-- The theorems on the processor and the traps, at concrete states.
use riscv_simulator.Prelude.{true, false, ◌≡◌, ◌<◌, ◌≢◌, refl, inl, arith, bit}
use riscv_simulator.CsrDefs.{csr_mstatus, csr_mie, prv_s}
use riscv_simulator.State.{Cpu, set_csr}
use riscv_simulator.State.Valid.{CpuIsValid}
use riscv_simulator.Exception.{raise_exception, handle_interrupt, external_enabled, timer_due}
use riscv_simulator.Exception.Return.{Resumes, mret-raise_exception, mret-handle_interrupt}
use riscv_simulator.Exception.Arbitration.{handle_interrupt-masked, handle_interrupt-level}
use riscv_simulator.Csr.{execute_mret}
use riscv_simulator.Cpu.{cpu_execute}
use riscv_simulator.Cpu.Valid.{cpu_execute-IsValid}
use riscv_simulator.Cpu.Zero.{cpu_execute-zero}
use riscv_simulator.Examples.States.{host, blank, blank-IsValid}

-- `addi x1, x0, 5`
cpu_execute-IsValid_example : CpuIsValid (cpu_execute host blank 0x00500093)
cpu_execute-IsValid_example = cpu_execute-IsValid host blank 0x00500093 blank-IsValid (omega arith)

-- `addi x0, x0, 5`
cpu_execute-zero_example : (cpu_execute host blank 0x00500013).registers 0 ≡ 0
cpu_execute-zero_example = cpu_execute-zero host blank 0x00500013

-- A timer interrupt.
abbrev timed : Cpu
timed = set_csr (set_csr blank csr_mstatus 8) csr_mie 0x80

machine : timed.priv ≢ prv_s
unfolding set_csr
machine e = omega (arith, e)

taken : (handle_interrupt timed).0 ≡ true
unfolding handle_interrupt external_enabled timer_due set_csr
taken = refl

mret-handle_interrupt_example : Resumes timed (execute_mret (handle_interrupt timed).1)
unfolding set_csr
mret-handle_interrupt_example = mret-handle_interrupt timed machine (omega arith) taken

mret-raise_exception_example : Resumes blank (execute_mret (raise_exception blank 2))
mret-raise_exception_example = mret-raise_exception blank 2 (λ e. omega (arith, e)) (omega arith)

handle_interrupt-masked_example : handle_interrupt blank ≡ (false, blank)
unfolding bit
handle_interrupt-masked_example = handle_interrupt-masked blank (inl refl)

handle_interrupt-level_example :
    ((handle_interrupt timed).0 ≡ true
      → timed.current_priority < (handle_interrupt timed).1.current_priority)
    × ((handle_interrupt timed).0 ≡ false → (handle_interrupt timed).1 ≡ timed)
handle_interrupt-level_example = handle_interrupt-level timed
