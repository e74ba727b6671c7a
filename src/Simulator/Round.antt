-- ===== src/Simulator/Round.antt =====
-- A round of the processor's loop keeps the state valid.
use riscv_simulator.Prelude.{
  ℕ, zero, suc, Bool, true, false, ◌≡◌, ◌+◌, ◌^◌, ◌<◌, arith, u64-lt, if◌then◌else◌, Option, some,
  none, ◌==◌, ◌!=◌, ltb, leb, ◌||◌, sym, ap, refl, u64, sub64,
}
use riscv_simulator.State.{Cpu}
use riscv_simulator.State.Valid.{CpuIsValid, Below, update-Below, if-CpuIsValid, set_csr-IsValid}
use riscv_simulator.CsrDefs.{csr_minstret, prv_m, cause_load_access_fault}
use riscv_simulator.Clint.{clint_init}
use riscv_simulator.Plic.{plic_init}
use riscv_simulator.Uart.{uart_init}
use riscv_simulator.Memory.{memory_end_addr, memory_base_addr}
use riscv_simulator.Clint.Valid.{clint_init-IsValid}
use riscv_simulator.Plic.Valid.{plic_init-IsValid}
use riscv_simulator.Uart.Valid.{uart_init-IsValid}
use riscv_simulator.Exception.Valid.{raise_exception-IsValid}
use riscv_simulator.Memory.Valid.{load_inst-lt}
use riscv_simulator.Inst.Float.{Fpu}
use riscv_simulator.Cpu.{cpu_init}
use riscv_simulator.Cpu.Valid.{cpu_execute-IsValid}
use riscv_simulator.Keyboard.{Mode, cpu_mode, uart_mode, none_mode}
use riscv_simulator.Simulator.{
  Settings, check_pc, retire, read_file, load_file_to_memory, reset_system, set_fast, step_mode,
  run_on, run_mode, cpu_simulator,
}

-- What the file, the allocation and the command line supply.
pub record SettingsIsValid (s : Settings) : Type 0 where
  pub file_lt : Below (2 ^ 8) s.input_file
  pub fresh_lt : Below (2 ^ 8) s.fresh_memory
  pub load_lt : s.load_address < 2 ^ 64

-- A result that may be an exit.
pub record ExitOrValid (o : Option Cpu) : Type 0 where
  pub valid : (d : Cpu) → o ≡ some d → CpuIsValid d

if-ExitOrValid :
    (b : Bool) {x y : Option Cpu} → ExitOrValid x → ExitOrValid y → ExitOrValid (if b then x else y)
if-ExitOrValid true p q = p
if-ExitOrValid false p q = q

exits : ExitOrValid none
exits = record { valid = λ d e. absurd (cc e) }

memory_inj : (m x : ℕ → ℕ) → some m ≡ some x → m ≡ x
memory_inj m x e = cc e

some_inj : (c d : Cpu) → some c ≡ some d → c ≡ d
some_inj c d e = cc e

goes_on : {c : Cpu} → CpuIsValid c → ExitOrValid (some c)
goes_on {c} ok = record { valid = λ d e. rw (sym (some_inj c d e)) ok }

read_file-Below :
    (file : ℕ → ℕ) (i left at : ℕ) {memory : ℕ → ℕ}
    → Below (2 ^ 8) file
    → Below (2 ^ 8) memory
    → Below (2 ^ 8) (read_file file i left at memory)
unfolding read_file
read_file-Below file i zero at h g = g
read_file-Below file i (suc left) at h g =
    read_file-Below file (i + 1) left (at + 1) h (update-Below at (file i) g (h i))

fast-IsValid : {c : Cpu} (b : Bool) → CpuIsValid c → CpuIsValid (set_fast c b)
unfolding set_fast
fast-IsValid b ok = assumption

module _ {c : Cpu} (ok : CpuIsValid c) where
  check_pc-IsValid : CpuIsValid (check_pc c)
  unfolding check_pc
  check_pc-IsValid =
      if-CpuIsValid (ltb c.pc 0x100 || leb _ c.pc)
        (raise_exception-IsValid cause_load_access_fault ok (omega arith)) ok

  retire-IsValid :
      (fpu : Fpu) (instruction : ℕ) → instruction < 2 ^ 32 → CpuIsValid (retire fpu c instruction)
  unfolding retire
  retire-IsValid fpu instruction h =
      set_csr-IsValid csr_minstret (cpu_execute-IsValid fpu c instruction ok h) (u64-lt _)

-- A reset.
zeros : Below (2 ^ 64) (λ _. 0)
zeros i = omega arith

pub record FileIsValid (o : Option (ℕ → ℕ)) : Type 0 where
  pub bytes : (memory : ℕ → ℕ) → o ≡ some memory → Below (2 ^ 8) memory

if-FileIsValid :
    (b : Bool) {o : Option (ℕ → ℕ)} → FileIsValid o → FileIsValid (if b then none else o)
if-FileIsValid true h = record { bytes = λ x e. absurd (cc e) }
if-FileIsValid false h = h

loaded : (m : ℕ → ℕ) → Below (2 ^ 8) m → FileIsValid (some m)
loaded m h = record {
  bytes = λ x e i. omega (arith, h i, ap (λ (f : ℕ → ℕ). f i) (memory_inj m x e));
}

pub load_file-IsValid :
    (file : ℕ → ℕ) (size bytes_read : ℕ) (memory : ℕ → ℕ) (address : ℕ)
    → Below (2 ^ 8) file
    → Below (2 ^ 8) memory
    → FileIsValid (load_file_to_memory file size bytes_read memory address)
unfolding load_file_to_memory
load_file-IsValid file size bytes_read memory address h g =
    if-FileIsValid (ltb memory_end_addr (u64 (size + address))) (
      if-FileIsValid (bytes_read != size)
        (loaded _ (read_file-Below file 0 size (sub64 address memory_base_addr) h g)))

machine-lt : prv_m < 4
machine-lt = omega arith

idle-lt : 0 < 4
idle-lt = omega arith

module _ {s : Settings} (files : SettingsIsValid s) {c : Cpu} (ok : CpuIsValid c) where
  fresh-Below :
      Below
        (2 ^ 8)
        (cpu_init c s.fresh_memory
          (clint_init c.clint)
          (plic_init c.plic)
          (uart_init c.uart)).memory
  unfolding cpu_init
  fresh-Below = files.fresh_lt

  loaded-IsValid :
      (o : Option (ℕ → ℕ))
      → FileIsValid o
      → ExitOrValid (elim o [
        | some memory ↦
            some
              (record (cpu_init c s.fresh_memory
                (clint_init c.clint)
                (plic_init c.plic)
                (uart_init c.uart)) { memory = memory; pc = s.load_address })
        | none ↦ none
      ])
  unfolding cpu_init
  loaded-IsValid none h = exits
  loaded-IsValid (some memory) h = goes_on (
      assumption (
        zeros,
        h.bytes memory refl,
        clint_init-IsValid c.clint,
        plic_init-IsValid c.plic,
        uart_init-IsValid c.uart ok.uart_valid,
        files.load_lt,
        machine-lt,
        idle-lt,
      ))

  reset-IsValid : ExitOrValid (reset_system s c)
  unfolding reset_system
  reset-IsValid = loaded-IsValid _ (
      load_file-IsValid s.input_file s.file_size s.bytes_read _ s.load_address files.file_lt
        fresh-Below)

-- The loop.
module _ (fpu : Fpu) {s : Settings} (files : SettingsIsValid s) where
  run_on-IsValid :
      {c : Cpu} (instruction : ℕ)
      → CpuIsValid c
      → instruction < 2 ^ 32
      → ExitOrValid (run_on fpu s c instruction)
  unfolding run_on
  run_on-IsValid {c} instruction ok h =
      if-ExitOrValid (c.pc == s.end_address) (goes_on (fast-IsValid false ok))
        (goes_on (retire-IsValid ok fpu instruction h))

  step_mode-IsValid :
      {c : Cpu} (key instruction : ℕ)
      → CpuIsValid c
      → instruction < 2 ^ 32
      → ExitOrValid (step_mode fpu s c key instruction)
  unfolding step_mode
  step_mode-IsValid {c} key instruction ok h =
      if-ExitOrValid (key == 115) (goes_on (retire-IsValid ok fpu instruction h)) (
        if-ExitOrValid (key == 99)
          (goes_on (retire-IsValid (fast-IsValid true ok) fpu instruction h))
          (if-ExitOrValid (key == 114) (reset-IsValid files (fast-IsValid false ok)) (
            if-ExitOrValid (key == 98) (goes_on (fast-IsValid false ok))
              (if-ExitOrValid (key == 113) exits (goes_on ok)))))

  run_mode-IsValid :
      {c : Cpu} (mode : Mode) (key instruction : ℕ)
      → CpuIsValid c
      → instruction < 2 ^ 32
      → ExitOrValid (run_mode fpu s c mode key instruction)
  unfolding run_mode
  run_mode-IsValid {c} none_mode key instruction ok h = run_on-IsValid instruction ok h
  run_mode-IsValid {c} uart_mode key instruction ok h = run_on-IsValid instruction ok h
  run_mode-IsValid {c} cpu_mode key instruction ok h =
      if-ExitOrValid (key == 115) (goes_on (fast-IsValid false ok)) (
        if-ExitOrValid (key == 114) (reset-IsValid files (fast-IsValid false ok)) (
          if-ExitOrValid (key == 98) (goes_on (fast-IsValid false ok))
            (if-ExitOrValid (key == 113) exits (run_on-IsValid instruction ok h))))

  pub cpu_simulator-IsValid :
      {c : Cpu} (mode : Mode) (key : ℕ)
      → CpuIsValid c
      → ExitOrValid (cpu_simulator fpu s c mode key)
  unfolding cpu_simulator
  cpu_simulator-IsValid {c} mode key ok =
      let checked = check_pc-IsValid ok in
      let fetched = load_inst-lt checked (check_pc c).pc in
      if-ExitOrValid (check_pc c).fast_mode (run_mode-IsValid mode key _ checked fetched)
        (step_mode-IsValid key _ checked fetched)
