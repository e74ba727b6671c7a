-- ===== src/Display/Rows.antt =====
-- src/display.c: every panel stays inside its window.
use riscv_simulator.Prelude.{ℕ, sub64, ◌<◌, ◌≢◌, none, arith}
use riscv_simulator.State.{Cpu, Clint, Plic, Uart}
use riscv_simulator.Keyboard.{Mode, cpu_mode, uart_mode, none_mode}
use riscv_simulator.Disassemble.Names.{element}
use riscv_simulator.Disassemble.Formats.{element-some, length}
use riscv_simulator.Display.Windows.{stack_size}
use riscv_simulator.Display.Panels.{
  reg_names2, cpu_modes, register_row, csr_rows, display_registers, stack_row, display_stack,
  mode_lines, display_keyboard_mode, register_names, register_values, uart_row, display_uart,
  pending_row, enable_row, display_plic, display_clint,
}
use Prim.Native.String.{String}
use riscv_simulator.Prelude.{List, [], ◌∷◌}
use riscv_simulator.Display.Windows.{Draw, Value}
use riscv_simulator.Display.Windows.Draw.{print}
use riscv_simulator.Display.Inside.{AllInside, AllDefined, inside, loop-AllInside}

reg_names2-some : (i : ℕ) → i < 32 → element reg_names2 i ≢ none
unfolding reg_names2 length
reg_names2-some i h = element-some reg_names2 i h

cpu_modes-some : (i : ℕ) → i < 4 → element cpu_modes i ≢ none
unfolding cpu_modes length
cpu_modes-some i h = element-some cpu_modes i h

register_names-some : (i : ℕ) → i < 12 → element register_names i ≢ none
unfolding register_names length
register_names-some i h = element-some register_names i h

register_values-some : (uart : Uart) (i : ℕ) → i < 12 → element (register_values uart) i ≢ none
unfolding register_values length
register_values-some uart i h = element-some (register_values uart) i h

register_row-AllInside : (cpu : Cpu) (i : ℕ) → i < 32 → AllInside 45 30 (register_row cpu i)
unfolding register_row
register_row-AllInside cpu i h = search (inside, reg_names2-some, arith)

-- A row of one value in the window of the registers.
row-AllInside :
    (y : ℕ) {f : String} {v : Value} {ds : List Draw}
    → y < 45
    → AllDefined (v ∷ [])
    → AllInside 45 30 ds
    → AllInside 45 30 (print y 1 f (v ∷ []) ∷ ds)
row-AllInside y h v m = AllInside.print_draw h (omega arith) v m

csr_rows-AllInside :
    (cpu : Cpu) (frequency : ℕ) → cpu.priv < 4 → AllInside 45 30 (csr_rows cpu frequency)
unfolding csr_rows
csr_rows-AllInside cpu frequency h =
    row-AllInside 33 (omega arith)
      (AllDefined.name_value (cpu_modes-some cpu.priv h) AllDefined.no_values)
      (row-AllInside 34 (omega arith) (AllDefined.number_value AllDefined.no_values) (
        row-AllInside 35 (omega arith) (AllDefined.number_value AllDefined.no_values) (
          row-AllInside 36 (omega arith) (AllDefined.number_value AllDefined.no_values) (
            row-AllInside 37 (omega arith) (AllDefined.number_value AllDefined.no_values) (
              row-AllInside 38 (omega arith) (AllDefined.number_value AllDefined.no_values) (
                row-AllInside 39 (omega arith) (AllDefined.number_value AllDefined.no_values) (
                  row-AllInside 40 (omega arith) (AllDefined.number_value AllDefined.no_values) (
                    row-AllInside 41 (omega arith) (AllDefined.number_value AllDefined.no_values) (
                      row-AllInside 42 (omega arith) (AllDefined.number_value AllDefined.no_values)
                        (row-AllInside 43 (omega arith) (AllDefined.real_value AllDefined.no_values)
                          AllInside.no_draws))))))))))

pub display_registers-AllInside :
    (frequency : ℕ → ℕ) (old : ℕ) (cpu : Cpu)
    → cpu.priv < 4
    → AllInside 45 30 (display_registers frequency old cpu).1
unfolding display_registers
display_registers-AllInside frequency old cpu h =
    let rows =
      loop-AllInside (register_row cpu) 0 32 32 (omega arith) (register_row-AllInside cpu) in
    search (inside, rows, csr_rows-AllInside, arith) depth 20 fits 4000

stack_row-AllInside : (cpu : Cpu) (base i : ℕ) → i < 32 → AllInside 40 33 (stack_row cpu base i)
unfolding stack_row
stack_row-AllInside cpu base i h = search (inside, arith)

pub display_stack-AllInside : (old : ℕ) (cpu : Cpu) → AllInside 40 33 (display_stack old cpu).1
unfolding display_stack
display_stack-AllInside old cpu =
    let rows =
      loop-AllInside (stack_row cpu (sub64 (cpu.registers 2) stack_size)) 0 32 32 (omega arith)
        (stack_row-AllInside cpu _) in
    search (inside, rows, arith) depth 20 fits 4000

mode_lines-AllInside : (mode : Mode) → AllInside 3 80 (mode_lines mode)
unfolding mode_lines
mode_lines-AllInside cpu_mode = search (inside, arith) depth 20
mode_lines-AllInside uart_mode = search (inside, arith) depth 20
mode_lines-AllInside none_mode = search (inside, arith) depth 20

pub display_keyboard_mode-AllInside :
    (old mode : Mode) → AllInside 3 80 (display_keyboard_mode old mode).1
unfolding display_keyboard_mode
display_keyboard_mode-AllInside old mode =
    search (inside, mode_lines-AllInside, arith) depth 20 fits 4000

uart_row-AllInside : (uart : Uart) (i : ℕ) → i < 6 → AllInside 8 35 (uart_row uart i)
unfolding uart_row
uart_row-AllInside uart i h =
    search (inside, register_names-some, register_values-some, arith) depth 20 fits 4000

pub display_uart-AllInside : (uart : Uart) → AllInside 8 35 (display_uart uart)
unfolding display_uart
display_uart-AllInside uart =
    let rows = loop-AllInside (uart_row uart) 0 6 6 (omega arith) (uart_row-AllInside uart) in
    search (inside, rows, arith) depth 20 fits 4000

pending_row-AllInside : (plic : Plic) (i : ℕ) → i < 4 → AllInside 13 45 (pending_row plic i)
unfolding pending_row
pending_row-AllInside plic i h = search (inside, arith)

enable_row-AllInside : (plic : Plic) (i : ℕ) → i < 4 → AllInside 13 45 (enable_row plic i)
unfolding enable_row
enable_row-AllInside plic i h = search (inside, arith)

pub display_plic-AllInside : (plic : Plic) → AllInside 13 45 (display_plic plic)
unfolding display_plic
display_plic-AllInside plic =
    let pending =
      loop-AllInside (pending_row plic) 0 4 4 (omega arith) (pending_row-AllInside plic) in
    let enabled =
      loop-AllInside (enable_row plic) 0 4 4 (omega arith) (enable_row-AllInside plic) in
    search (inside, pending, enabled, arith) depth 20 fits 4000

pub display_clint-AllInside : (clint : Clint) → AllInside 5 35 (display_clint clint)
unfolding display_clint
display_clint-AllInside clint = search (inside, arith) depth 20 fits 4000
