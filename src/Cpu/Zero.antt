-- ===== src/Cpu/Zero.antt =====
-- Register 0.
use riscv_simulator.Prelude.{ℕ, ◌≡◌, ◌∙◌, ap, arith}
use riscv_simulator.State.{Cpu, set_register}
use riscv_simulator.Exception.Frame.{handle_interrupt-registers}
use riscv_simulator.Inst.Float.{Fpu}
use riscv_simulator.Cpu.{dispatch, before, after, cpu_execute}

after-zero : (c : Cpu) → (after c).registers 0 ≡ 0
unfolding after set_register
after-zero c = ground arith

before-zero : (c : Cpu) → (before c).registers 0 ≡ 0
unfolding before set_register
before-zero c = ground arith

-- Behind every step register 0 reads 0, whatever the instruction wrote to it and whether or not an
-- interrupt was taken.
pub cpu_execute-zero :
    (fpu : Fpu) (c : Cpu) (instruction : ℕ) → (cpu_execute fpu c instruction).registers 0 ≡ 0
unfolding cpu_execute
cpu_execute-zero fpu c instruction =
    let c' = after (dispatch fpu (before c) instruction) in
    ap (λ (r : ℕ → ℕ). r 0) (handle_interrupt-registers c') ∙ after-zero _
