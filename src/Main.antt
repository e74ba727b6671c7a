-- ===== src/Main.antt =====
-- src/main.c: the start-up, up to the creation of the threads. The files, the allocation and the C
-- library's functions are parameters; semaphores, threads, the printed settings and the end of ncurses
-- are not modelled.
pub mod Valid
use Prim.Native.String.{String}
use riscv_simulator.Prelude.{ℕ, false, ◌!=◌, if◌then◌else◌, Option, none, some, List}
use riscv_simulator.State.{Cpu, Clint, Plic, Uart, Mmu}
use riscv_simulator.Clint.{clint_init}
use riscv_simulator.Plic.{plic_init}
use riscv_simulator.Uart.{uart_init}
use riscv_simulator.Memory.{memory_end_addr}
use riscv_simulator.Cpu.{cpu_init}
use riscv_simulator.Keyboard.{KeyBoardData, cpu_mode}
use riscv_simulator.Simulator.{Settings, load_file_to_memory}
use riscv_simulator.Disassemble.Names.{CsrNames, init_csr_names}
use riscv_simulator.Helper.{Choice, Arguments, parse_arguments}

-- `static UART global_uart` and the other globals hold zeros when the program starts.
unfoldable pub global_uart : Uart
global_uart = record {
  thr = 0;
  rbr = 0;
  ier = 0;
  iir = 0;
  fcr = 0;
  lcr = 0;
  mcr = 0;
  lsr = 0;
  msr = 0;
  scr = 0;
  dll = 0;
  dlm = 0;
  fifo = λ _. 0;
  fifo_head = 0;
  fifo_tail = 0;
  fifo_count = 0;
}

unfoldable pub global_plic : Plic
global_plic = record {
  priority = λ _. 0;
  pending = λ _. 0;
  threshold = λ _. 0;
  enable = λ _ _. 0;
  claim_complete = λ _. 0;
}

unfoldable pub global_clint : Clint
global_clint = record { msip = λ _. 0; mtimecmp = λ _. 0; mtime = 0 }

-- The null pointer to the memory reads as zeros here; `cpu_init` sets it.
unfoldable pub global_cpu : Cpu
global_cpu = record {
  registers = λ _. 0;
  fregisters = λ _. 0;
  csr = λ _. 0;
  pc = 0;
  priv = 0;
  pc_updated = false;
  reserved_address = 0;
  memory = λ _. 0;
  mmu = record {
    tlb = λ _. record { virtual_address = 0; physical_address = 0; asid = 0; valid = 0 };
  };
  trap_occurred = false;
  interrupt_pending = false;
  fast_mode = false;
  clint = global_clint;
  plic = global_plic;
  uart = global_uart;
  current_priority = 0;
}

-- The three variables that the command line may set.
unfoldable pub initial_arguments : Arguments
initial_arguments = record { input_file = none; load_address = 0; end_address = memory_end_addr }

-- What a name opens: the bytes of the file, their number, and how many of them `fread` returns.
pub record File : Type 0 where
  pub bytes : ℕ → ℕ
  pub size : ℕ
  pub bytes_read : ℕ

-- What the threads are started with.
pub record Started : Type 0 where
  pub settings : Settings
  pub keyboard : KeyBoardData
  pub csr_names : CsrNames

-- The files, and the contents of the memory that `malloc` returns at the start and at a reset.
pub record Host : Type 0 where
  pub strtoull : String → ℕ
  pub open_file : String → Option File
  pub first_memory : ℕ → ℕ
  pub reset_memory : ℕ → ℕ

module _ (host : Host) where
  -- The processor and the devices behind their initialisation.
  unfoldable pub init_cpu : Cpu
  init_cpu =
      cpu_init global_cpu host.first_memory (clint_init global_clint) (plic_init global_plic)
        (uart_init global_uart)

  -- The arguments of the threads.
  unfoldable pub thread_data : Arguments → File → (ℕ → ℕ) → Started
  thread_data args file memory = record {
    settings = record {
      input_file = file.bytes;
      file_size = file.size;
      bytes_read = file.bytes_read;
      fresh_memory = host.reset_memory;
      load_address = args.load_address;
      end_address = args.end_address;
    };
    keyboard = record {
      cpu = record init_cpu { memory = memory; pc = args.load_address };
      key = 255;
      current_mode = cpu_mode;
    };
    csr_names = init_csr_names (λ _. none);
  }

  unfoldable pub start_with : Arguments → File → Option Started
  start_with args file =
      elim (load_file_to_memory file.bytes file.size file.bytes_read init_cpu.memory
        args.load_address) [ none ↦ none | some memory ↦ some (thread_data args file memory) ]

  -- `fopen(filename, "rb")` of the name that was given.
  unfoldable pub open_input : Option String → Option File
  open_input none = none
  open_input (some name) = host.open_file name

  -- `none`: the program ends, with the usage or in `load_file_to_memory`.
  unfoldable pub main : List Choice → Option Started
  main choices =
      let (status, args) = parse_arguments host.strtoull choices initial_arguments in
      if status != 0
      then none
      else elim (open_input args.input_file) [ none ↦ none | some file ↦ start_with args file ]
