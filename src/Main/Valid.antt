-- ===== src/Main/Valid.antt =====
-- src/main.c: every state from the start of the program on is valid, and can be displayed.
use Prim.Native.String.{String}
use riscv_simulator.Prelude.{
  ℕ, ◌≡◌, ◌<◌, ◌^◌, ◌!=◌, refl, sym, Bool, true, false, if◌then◌else◌, Option, none, some, List,
  arith,
}
use native.Mathlib.Nat.{one-le-pow}
use riscv_simulator.State.{Cpu}
use riscv_simulator.State.Valid.{CpuIsValid, UartIsValid, Below}
use riscv_simulator.Clint.Valid.{clint_init-IsValid}
use riscv_simulator.Plic.Valid.{plic_init-IsValid}
use riscv_simulator.Uart.Valid.{uart_init-IsValid}
use riscv_simulator.Cpu.{cpu_init}
use riscv_simulator.Simulator.Round.{SettingsIsValid, FileIsValid, load_file-IsValid}
use riscv_simulator.Helper.{Arguments, Choice, parse_arguments}
use riscv_simulator.Helper.Settled.{parse_arguments-IsOrdered}
use riscv_simulator.Display.{initial_display}
use riscv_simulator.Simulator.Machine.{Machine}
use riscv_simulator.Simulator.Machine.Runs.{Runs, MachineIsValid, Runs-MachineIsValid}
use riscv_simulator.Inst.Float.{Fpu}
use riscv_simulator.Main.{
  global_uart, global_plic, global_clint, global_cpu, initial_arguments, thread_data, Host, File,
  Started, init_cpu, start_with, open_input, main,
}

-- What the files and the allocation supply are bytes.
pub record HostIsValid (host : Host) : Type 0 where
  pub file_lt :
      (name : String) (file : File) → host.open_file name ≡ some file → Below (2 ^ 8) file.bytes
  pub first_lt : Below (2 ^ 8) host.first_memory
  pub reset_lt : Below (2 ^ 8) host.reset_memory

zeros : (k : ℕ) → Below (2 ^ k) (λ _. 0)
zeros k i = omega (arith, one-le-pow k 2)

global_uart-IsValid : UartIsValid global_uart
unfolding global_uart
global_uart-IsValid = assumption (zeros 8, zeros 8 0, zeros 16 0)

machine-lt : 3 < 4
machine-lt = omega arith

idle-lt : 0 < 4
idle-lt = omega arith

init_cpu-IsValid : (host : Host) → HostIsValid host → CpuIsValid (init_cpu host)
unfolding init_cpu cpu_init global_cpu
init_cpu-IsValid host ok = assumption (
  zeros 64,
  zeros 64 0,
  machine-lt,
  idle-lt,
  ok.first_lt,
  clint_init-IsValid global_clint,
  plic_init-IsValid global_plic,
  uart_init-IsValid global_uart global_uart-IsValid,
)

record StateIsValid (b : Started) : Type 0 where
  settings_ok : SettingsIsValid b.settings
  cpu_ok : CpuIsValid b.keyboard.cpu
  key_ok : b.keyboard.key < 2 ^ 8

record StartedIsValid (o : Option Started) : Type 0 where
  valid : (b : Started) → o ≡ some b → StateIsValid b

nothing : StartedIsValid none
nothing = record { valid = λ b e. absurd (cc e) }

started_inj : (a b : Started) → some a ≡ some b → a ≡ b
started_inj a b e = cc e

started : (a : Started) → StateIsValid a → StartedIsValid (some a)
started a ok = record { valid = λ b e. rw (sym (started_inj a b e)) ok }

loaded-IsValid :
    (c : Cpu) (memory : ℕ → ℕ) (pc : ℕ)
    → CpuIsValid c
    → Below (2 ^ 8) memory
    → pc < 2 ^ 64
    → CpuIsValid (record c { memory = memory; pc = pc })
loaded-IsValid c memory pc ok h p = assumption

module _ (host : Host) (ok : HostIsValid host) (args : Arguments)
    (load_lt : args.load_address < 2 ^ 64) where
  thread_data-IsValid :
      (file : File) (memory : ℕ → ℕ)
      → Below (2 ^ 8) file.bytes
      → Below (2 ^ 8) memory
      → StateIsValid (thread_data host args file memory)
  unfolding thread_data
  thread_data-IsValid file memory h g = record {
    settings_ok = record { file_lt = h; fresh_lt = ok.reset_lt; load_lt = load_lt };
    cpu_ok =
        loaded-IsValid (init_cpu host) memory args.load_address (init_cpu-IsValid host ok) g
          load_lt;
    key_ok = omega arith;
  }

  file-IsValid :
      (file : File)
      → Below (2 ^ 8) file.bytes
      → (o : Option (ℕ → ℕ)) → FileIsValid o
      → StartedIsValid
          (elim o [ none ↦ none | some memory ↦ some (thread_data host args file memory) ])
  file-IsValid file h none g = nothing
  file-IsValid file h (some memory) g =
      started _ (thread_data-IsValid file memory h (g.bytes memory refl))

  start_with-IsValid :
      (file : File) → Below (2 ^ 8) file.bytes → StartedIsValid (start_with host args file)
  unfolding start_with
  start_with-IsValid file h = file-IsValid file h _ (
      load_file-IsValid file.bytes file.size file.bytes_read _ args.load_address h
        (init_cpu-IsValid host ok).memory_lt)

  opened-IsValid :
      (o : Option File)
      → ((file : File) → o ≡ some file → Below (2 ^ 8) file.bytes)
      → StartedIsValid (elim o [ none ↦ none | some file ↦ start_with host args file ])
  opened-IsValid none h = nothing
  opened-IsValid (some file) h = start_with-IsValid file (h file refl)

  input-IsValid : StartedIsValid (elim (open_input host args.input_file) [
    | none ↦ none
    | some file ↦ start_with host args file
  ])
  unfolding open_input
  input-IsValid = opened-IsValid _ (named args.input_file)
    where
      named :
          (name : Option String) (file : File)
          → open_input host name ≡ some file
          → Below (2 ^ 8) file.bytes
      named none file e = absurd (cc e)
      named (some name) file e = ok.file_lt name file e

-- A status of 0 promises a load address below the end of the memory.
load-lt :
    (host : Host) (choices : List Choice)
    → (parse_arguments host.strtoull choices initial_arguments).0 ≡ 0
    → (parse_arguments host.strtoull choices initial_arguments).1.load_address < 2 ^ 64
load-lt host choices h =
    let ordered = (parse_arguments-IsOrdered host.strtoull choices initial_arguments h).0 in
    omega (arith, ordered.load_lt, ordered.end_le)

decided-IsValid :
    (refused : Bool) (o : Option Started)
    → (refused ≡ false → StartedIsValid o)
    → StartedIsValid (if refused then none else o)
decided-IsValid true o h = nothing
decided-IsValid false o h = h refl

not_refused : (n : ℕ) → (n != 0) ≡ false → n ≡ 0
not_refused n h = ground arith

main-IsValid :
    (host : Host) (choices : List Choice) → HostIsValid host → StartedIsValid (main host choices)
unfolding main
main-IsValid host choices ok =
    decided-IsValid _ _
      (λ accepted. input-IsValid host ok _ (load-lt host choices (not_refused _ accepted)))

-- From the start of the program on, with whatever options, files and floating-point unit, whatever the
-- order in which the four threads take their steps: if the program starts, then in every state that is
-- reached the processor and the devices are valid, and the next frame of the display starts every text
-- inside its window and reads no table behind its end. It is assumed of the surroundings that a file
-- and fresh memory consist of bytes.
pub main-MachineIsValid :
    (fpu : Fpu) (host : Host) (choices : List Choice) (b : Started) (m : Machine)
    → HostIsValid host
    → main host choices ≡ some b
    → Runs fpu b.settings b.csr_names
        (record { keyboard = b.keyboard; display = initial_display })
        m
    → MachineIsValid b.csr_names m
unfolding initial_display
main-MachineIsValid fpu host choices b m ok e way =
    let start = (main-IsValid host choices ok).valid b e in
    Runs-MachineIsValid fpu b.settings b.csr_names _ start.settings_ok start.cpu_ok start.key_ok
      record {
        line_pos = omega arith;
        line_lt = omega arith;
        col_pos = omega arith;
        col_lt = omega arith;
      }
      m way
