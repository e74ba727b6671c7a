-- ===== src/Lib.antt =====
-- A verification of the RISC-V simulator: the processor, its control registers and devices, the
-- memory bus, the keyboard, the loop that runs them, the display with its disassembler, and the start.
--
-- The program. `src/simulator.c` runs a loop: it checks the program counter, fetches an instruction
-- from the memory of `src/memory.c` and gives it to `cpu_execute` of `src/cpu.c`, which dispatches on
-- the opcode to the handlers of `src/*_inst.c`, `src/*_extension.c` and `src/csr.c`, advances the
-- program counter and looks for an interrupt (`src/exception.c`). Loads and stores outside main memory
-- go through a table of regions to the CLINT, the PLIC and the UART (`src/clint.c`, `src/plic.c`,
-- `src/uart.c`). Three other threads write the same state: the timer (`timer_loop` of `src/clint.c`),
-- the keyboard (`src/keyboard.c`), which fills the receive queue of the UART and raises interrupt 10,
-- and the display (`src/display.c`), which shows the state in eight windows, the instructions around the
-- pc by way of `src/disassemble.c`, and takes the byte that the guest leaves in the UART. `src/main.c`
-- reads the command line (`src/helper.c`), initialises all of it and starts the threads.
--
-- The model. C structures are records (State), arrays are functions from the index, and an operation
-- takes the processor and returns the new one. The pointers of `CPU` to its memory and devices are
-- fields of the record, since `src/main.c` creates one of each and `get_cpu`, `get_clint`, `get_plic`
-- and `get_uart` return those. A word of w bits is a number below 2 ^ w; every cast and every sum is
-- cut with `% 2 ^ w`, and a signed value is its pattern.
--   State       include/cpu.h, mmu.h, clint.h, plic.h, uart.h: the structures; Valid, their widths
--   Defs, CsrDefs   include/riscv_defs.h and include/csr.h: constants and field macros
--   Mmu, Clint, Uart, Plic   the devices, one function for each of the code's
--   Memory      src/memory.c: `load_inst`, `memory_read`, `memory_write`, the table of regions
--   Exception   src/exception.c: `raise_exception`, `handle_interrupt`
--   Csr         src/csr.c: CSR instructions, ECALL, MRET, SRET, URET, fences
--   Inst        the instruction handlers, a module per source file (Words is src/i_64_inst.c; Atomic,
--               Float and MExtension are the A, F and M extensions), and Decode, their immediates
--   Cpu         src/cpu.c: `cpu_init`, `trigger_interrupt`, `cpu_execute`
--   Keyboard    src/keyboard.c, one key at a time; Queue, the receive queue as a list
--   Simulator   src/simulator.c: one round of `cpu_simulator`, `reset_system`, `load_file_to_memory`
--               Load, the bytes of a file in the memory; Threads, the four threads as the
--               steps of a relation; Machine, the same with the display, which a reset changes too
--   Disassemble src/disassemble.c: every function, as the `snprintf` that it calls; Render, what `%s`,
--               `%d` and `%x` show
--   Display     src/display.c: every function, as the ncurses calls that it makes; Windows and Inside,
--               those calls; Screen, the terminal; Panels and Source, the other windows
--   Helper      src/helper.c: `parse_arguments`
--   Main        src/main.c: `main`, up to the creation of the threads
--   Prelude     tests, words, integers, and the arithmetic of `&`, `|` and `^`
--   Examples    the theorems and the model at concrete states
--
-- Bounds and fuel. The searches of the PLIC run over the 128 interrupts that `MAX_INTERRUPTS`
-- allows, as the loops of the code do, so that their fuel is exact. The flushes of the translation
-- cache run over its 16 entries, the region table has its three entries, and a file is read for as
-- many bytes as it has. The rows of a window are counted as in the code, and the loop over the
-- options ends with them. A number of 32 bits has at most eight hexadecimal and ten decimal digits
-- (Disassemble/Digits). Nothing else loops: the rounds of the four threads are the steps of a
-- relation.
--
-- Not modelled. An index past an array or an offset past the end of main memory, which C leaves
-- undefined, names an entry of its own. The host's floating-point arithmetic is a parameter (Fpu).
-- A counter of type `int` that overflows, which is undefined as well, goes on counting.
-- The threads interleave by whole rounds; semaphores, logging, the terminal's settings and
-- messages on stderr are left out. Of `snprintf`, Render has the conversions, as the C standard
-- describes them, but not the cut to the size of the buffer; ncurses ends where it is called.
-- `getopt_long`, `strtoull`, the files, what `fread` returns, what `malloc` returns and the
-- measured frequency are parameters.
pub mod Prelude
pub mod Defs
pub mod CsrDefs
pub mod State
pub mod Mmu
pub mod Clint
pub mod Uart
pub mod Plic
pub mod Main
pub mod Memory
pub mod Exception
pub mod Helper
pub mod Inst
pub mod Csr
pub mod Cpu
pub mod Keyboard
pub mod Simulator
pub mod Disassemble
pub mod Display
pub mod Examples
