-- ===== src/Simulator.antt =====
-- src/simulator.c: the loop of the processor's thread, one round at a time. The wait for the keyboard's
-- semaphore and the measured times are not part of the state; Machine adds the display. What a reset finds in the
-- file and in the memory that `malloc` returns are parameters.
pub mod Round
pub mod Load
pub mod Threads
pub mod Machine
use riscv_simulator.Prelude.{
  ℕ, zero, suc, Bool, true, false, ◌+◌, ◌/◌, ltb, leb, ◌==◌, ◌!=◌, ◌||◌, if◌then◌else◌,
}
use riscv_simulator.Prelude.{update, u64, sub64, List, [], ◌∷◌, Option, none, some}
use riscv_simulator.CsrDefs.{csr_minstret, cause_load_access_fault}
use riscv_simulator.State.{Cpu, set_csr}
use riscv_simulator.Clint.{clint_init}
use riscv_simulator.Plic.{plic_init}
use riscv_simulator.Uart.{uart_init}
use riscv_simulator.Memory.{load_inst, memory_base_addr, memory_end_addr}
use riscv_simulator.Exception.{raise_exception}
use riscv_simulator.Inst.Float.{Fpu}
use riscv_simulator.Cpu.{cpu_init, cpu_execute}
use riscv_simulator.Keyboard.{Mode, cpu_mode, uart_mode, none_mode}

-- The range check of the program counter.
unfoldable pub check_pc : Cpu → Cpu
check_pc cpu =
    if ltb cpu.pc 0x100 || leb memory_end_addr cpu.pc
    then raise_exception cpu cause_load_access_fault
    else cpu

-- `cpu_execute(cpu, instruction); cpu->csr[CSR_MINSTRET] += 1`
unfoldable pub retire : Fpu → Cpu → ℕ → Cpu
retire fpu cpu instruction =
    let executed = cpu_execute fpu cpu instruction in
    set_csr executed csr_minstret (u64 (executed.csr csr_minstret + 1))

-- What a whole `fread` stores: byte `i` of the file at the address `i` places on.
unfoldable pub read_file : (ℕ → ℕ) → ℕ → ℕ → ℕ → (ℕ → ℕ) → ℕ → ℕ
read_file file i zero at memory = memory
read_file file i (suc left) at memory =
    read_file file (i + 1) left (at + 1) (update memory at (file i))

-- `exit` is `none`; `bytes_read` is what `fread` returns.
unfoldable pub load_file_to_memory : (ℕ → ℕ) → ℕ → ℕ → (ℕ → ℕ) → ℕ → Option (ℕ → ℕ)
load_file_to_memory file file_size bytes_read memory address =
    if ltb memory_end_addr (u64 (file_size + address))
    then none
    else if bytes_read != file_size
    then none
    else some (read_file file 0 file_size (sub64 address memory_base_addr) memory)

pub record Settings : Type 0 where
  pub input_file : ℕ → ℕ
  pub file_size : ℕ
  pub bytes_read : ℕ
  pub fresh_memory : ℕ → ℕ
  pub load_address : ℕ
  pub end_address : ℕ

unfoldable pub reset_system : Settings → Cpu → Option Cpu
reset_system settings cpu =
    let cleared =
      cpu_init cpu settings.fresh_memory (clint_init cpu.clint) (plic_init cpu.plic)
        (uart_init cpu.uart) in
    elim (load_file_to_memory settings.input_file settings.file_size settings.bytes_read
      cleared.memory settings.load_address) [
        | some memory ↦ some (record cleared { memory = memory; pc = settings.load_address })
        | none ↦ none
      ]

-- `cpu->fast_mode = fast`
unfoldable pub set_fast : Cpu → Bool → Cpu
set_fast cpu fast = record cpu { fast_mode = fast }

-- The branch of step mode, by the key.
unfoldable pub step_mode : Fpu → Settings → Cpu → ℕ → ℕ → Option Cpu
step_mode fpu settings cpu key instruction =
    if key == 115
    then some (retire fpu cpu instruction)
    else if key == 99
    then some (retire fpu (set_fast cpu true) instruction)
    else if key == 114
    then reset_system settings (set_fast cpu false)
    else if key == 98
    then some (set_fast cpu false)
    else if key == 113
    then none
    else some cpu

-- What fast mode does when no key interrupts it.
unfoldable pub run_on : Fpu → Settings → Cpu → ℕ → Option Cpu
run_on fpu settings cpu instruction =
    if cpu.pc == settings.end_address
    then some (set_fast cpu false)
    else some (retire fpu cpu instruction)

-- The branch of fast mode: the key counts in CPU mode only.
unfoldable pub run_mode : Fpu → Settings → Cpu → Mode → ℕ → ℕ → Option Cpu
run_mode fpu settings cpu mode key instruction =
    let running = run_on fpu settings cpu instruction in
    elim mode [
      | cpu_mode ↦
          if key == 115
          then some (set_fast cpu false)
          else if key == 114
          then reset_system settings (set_fast cpu false)
          else if key == 98
          then some (set_fast cpu false)
          else if key == 113
          then none
          else running
      | uart_mode ↦ running
      | none_mode ↦ running
    ]

-- One round of the loop. `exit(0)` is `none`.
unfoldable pub cpu_simulator : Fpu → Settings → Cpu → Mode → ℕ → Option Cpu
cpu_simulator fpu settings cpu mode key =
    let checked = check_pc cpu in
    let instruction = load_inst checked checked.pc in
    if checked.fast_mode
    then run_mode fpu settings checked mode key instruction
    else step_mode fpu settings checked key instruction
