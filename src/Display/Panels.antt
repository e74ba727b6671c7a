-- ===== src/Display/Panels.antt =====
-- src/display.c: display_registers, display_stack, display_keyboard_mode, display_uart, display_plic and
-- display_clint. A function that keeps a value in a `static` returns it.
use Prim.Native.String.{String}
use riscv_simulator.Prelude.{
  ℕ, ◌+◌, ◌*◌, ◌/◌, ◌==◌, ◌!=◌, ◌&&◌, if◌then◌else◌, List, [], ◌∷◌, ◌++◌, u64, sub64,
}
use riscv_simulator.CsrDefs.{
  csr_mhartid, csr_mie, csr_mtvec, csr_mip, csr_mstatus, csr_mcause, csr_mepc, csr_minstret,
}
use riscv_simulator.CsrDefs.Numbers.{csr_mscratch}
use riscv_simulator.State.{Cpu, Clint, Plic, Uart}
use riscv_simulator.Plic.{max_interrupts}
use riscv_simulator.Memory.{load_inst}
use riscv_simulator.Keyboard.{Mode, cpu_mode, uart_mode, none_mode}
use riscv_simulator.Disassemble.Names.{element}
use riscv_simulator.Display.Windows.{Draw, loop, stack_size}
use riscv_simulator.Display.Windows.Draw.{clear, border, print, refresh}
use riscv_simulator.Display.Windows.Value.{name, number, real, entry}

unfoldable pub reg_names2 : List String
reg_names2 =
    "zro" ∷ "ra" ∷ "sp" ∷ "gp" ∷ "tp" ∷ "t0" ∷ "t1" ∷ "t2" ∷ "s0" ∷ "s1" ∷ "a0" ∷ "a1" ∷ "a2" ∷ "a3"
    ∷ "a4" ∷ "a5" ∷ "a6" ∷ "a7" ∷ "s2" ∷ "s3" ∷ "s4" ∷ "s5" ∷ "s6" ∷ "s7" ∷ "s8" ∷ "s9" ∷ "s10"
    ∷ "s11" ∷ "t3" ∷ "t4" ∷ "t5" ∷ "t6" ∷ []

unfoldable pub cpu_modes : List String
cpu_modes = "User" ∷ "Supervisor" ∷ "Reserved" ∷ "Machine" ∷ []

-- Row `i + 1`.
unfoldable pub register_row : Cpu → ℕ → List Draw
register_row cpu i =
    print (i + 1) 1 "x%-2d (%-3s):0x%016lx"
      (number i ∷ name (element reg_names2 i) ∷ number (cpu.registers i) ∷ [])
    ∷ []

-- The rows from `csr_base_y_index` on.
unfoldable pub csr_rows : Cpu → ℕ → List Draw
csr_rows cpu frequency =
    print 33 1 "cpu mode: %s" (name (element cpu_modes cpu.priv) ∷ [])
    ∷ print 34 1 "mhartid:  0x%016lx" (number (cpu.csr csr_mhartid) ∷ [])
    ∷ print 35 1 "mscratch: 0x%016lx" (number (cpu.csr csr_mscratch) ∷ [])
    ∷ print 36 1 "mie:      0x%016lx" (number (cpu.csr csr_mie) ∷ [])
    ∷ print 37 1 "mtvec:    0x%016lx" (number (cpu.csr csr_mtvec) ∷ [])
    ∷ print 38 1 "mip:      0x%016lx" (number (cpu.csr csr_mip) ∷ [])
    ∷ print 39 1 "mstatus:  0x%016lx" (number (cpu.csr csr_mstatus) ∷ [])
    ∷ print 40 1 "mcause:   0x%016lx" (number (cpu.csr csr_mcause) ∷ [])
    ∷ print 41 1 "mepc:     0x%016lx" (number (cpu.csr csr_mepc) ∷ [])
    ∷ print 42 1 "minstret: 0x%016lu" (number (cpu.csr csr_minstret) ∷ [])
    ∷ print 43 1 "freq:     %.2fMhz" (real frequency ∷ [])
    ∷ []

-- `frequency` gives the pattern of the floating-point quotient of the instructions since the last call
-- by the time since then. The first result is the new `old_minstret`.
unfoldable pub display_registers : (ℕ → ℕ) → ℕ → Cpu → ℕ × List Draw
display_registers frequency old_minstret cpu =
    let minstret = cpu.csr csr_minstret in
    (
      minstret,
      clear
          ∷ border
          ∷ print 0 1 "PC:0x%016lx" (number cpu.pc ∷ [])
          ∷ (loop (register_row cpu) 0 32
              ++ csr_rows cpu (frequency (sub64 minstret old_minstret))
              ++ refresh ∷ []),
    )

unfoldable pub stack_row : Cpu → ℕ → ℕ → List Draw
stack_row cpu base_address i =
    let address = u64 (base_address + i * 4) in
    print (i + 1) 1 "0x%016llx: 0x%08lx" (number address ∷ number (load_inst cpu address) ∷ []) ∷ []

-- The first result is the new `old_sp`.
unfoldable pub display_stack : ℕ → Cpu → ℕ × List Draw
display_stack old_sp cpu =
    let sp = cpu.registers 2 in
    if old_sp != 0 && old_sp == sp then (old_sp, []) else (
      sp,
      clear
          ∷ border
          ∷ print 0 1 "Stack (0x%016llx):" (number sp ∷ [])
          ∷ (loop (stack_row cpu (sub64 sp stack_size)) 0 stack_size ++ refresh ∷ []),
    )

unfoldable pub mode_lines : Mode → List Draw
mode_lines cpu_mode =
    print 0 1 "KeyBoard Mode: CPU Mode" []
    ∷ print 1 1 "s: step, c: continue, b: break, r: reset, q: quit" []
    ∷ []
mode_lines uart_mode =
    print 0 1 "KeyBoard Mode: UART Mode" [] ∷ print 1 1 "Ctrl+G: switch to CPU mode" [] ∷ []
mode_lines none_mode =
    print 0 1 "KeyBoard Mode: UART Mode" [] ∷ print 1 1 "Ctrl+G: switch to CPU mode" [] ∷ []

-- The number of a mode in the enumeration.
unfoldable pub mode_number : Mode → ℕ
mode_number none_mode = 0
mode_number cpu_mode = 1
mode_number uart_mode = 2

-- The first result is the new `old_mode`.
unfoldable pub display_keyboard_mode : Mode → Mode → Mode × List Draw
display_keyboard_mode old_mode mode =
    if mode_number old_mode == mode_number mode
    then (old_mode, [])
    else (mode, clear ∷ border ∷ (mode_lines mode ++ refresh ∷ []))

unfoldable pub register_names : List String
register_names =
    "THR" ∷ "RBR" ∷ "IER" ∷ "IIR" ∷ "FCR" ∷ "LCR" ∷ "MCR" ∷ "LSR" ∷ "MSR" ∷ "SCR" ∷ "DLL" ∷ "DLM"
    ∷ []

unfoldable pub register_values : Uart → List ℕ
register_values uart =
    uart.thr ∷ uart.rbr ∷ uart.ier ∷ uart.iir ∷ uart.fcr ∷ uart.lcr ∷ uart.mcr ∷ uart.lsr ∷ uart.msr
    ∷ uart.scr ∷ uart.dll ∷ uart.dlm ∷ []

unfoldable pub uart_row : Uart → ℕ → List Draw
uart_row uart i =
    print (i + 1) 1 "%-4s: 0x%02x"
      (name (element register_names i) ∷ entry (element (register_values uart) i) ∷ [])
    ∷ print (i + 1) 18 "%-4s: 0x%02x" (
        name (element register_names (i + 6)) ∷ entry (element (register_values uart) (i + 6)) ∷ [])
    ∷ []

unfoldable pub display_uart : Uart → List Draw
display_uart uart = print 0 1 "UART Registers" [] ∷ (loop (uart_row uart) 0 6 ++ refresh ∷ [])

unfoldable pub pending_row : Plic → ℕ → List Draw
pending_row plic i =
    print (2 + i) 1 "Pending [%d]: 0x%08x" (number i ∷ number (plic.pending i) ∷ []) ∷ []

unfoldable pub enable_row : Plic → ℕ → List Draw
enable_row plic i =
    print (7 + i) 1 "Enable [hart0][%d]: 0x%08x" (number i ∷ number (plic.enable 0 i) ∷ []) ∷ []

unfoldable pub display_plic : Plic → List Draw
display_plic plic =
    print 0 1 "PLIC Registers (hart0)" []
    ∷ print 1 1 "Priority [id=10]: %u" (number (plic.priority 10) ∷ [])
    ∷ (loop (pending_row plic) 0 (max_interrupts / 32)
        ++ print 6 1 "Threshold [hart0]: %u" (number (plic.threshold 0) ∷ [])
          ∷ (loop (enable_row plic) 0 (max_interrupts / 32)
              ++ print 11 1 "Claim/Complete [hart0]: 0x%08x" (number (plic.claim_complete 0) ∷ [])
                ∷ refresh
                ∷ []))

unfoldable pub display_clint : Clint → List Draw
display_clint clint =
    print 0 1 "Clint Registers (hart0)" []
    ∷ print 1 1 "mtime:       %020llu" (number clint.mtime ∷ [])
    ∷ print 2 1 "mtimecmp[0]: %020llu" (number (clint.mtimecmp 0) ∷ [])
    ∷ print 3 1 "msip[0]:     0x%016x" (number (clint.msip 0) ∷ [])
    ∷ refresh
    ∷ []
