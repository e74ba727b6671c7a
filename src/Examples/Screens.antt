-- ===== src/Examples/Screens.antt =====
-- The theorems on the display, at concrete states.
use riscv_simulator.Prelude.{sra32, false, ◌≡◌, refl, inr, arith, some, none, ℕ, List, [], ◌∷◌, bit}
use riscv_simulator.Keyboard.{cpu_mode}
use riscv_simulator.Memory.{load_inst}
use riscv_simulator.Uart.{uart_base_addr, uart_write}
use riscv_simulator.Disassemble.Text.{codes, snprintf, reg, regs_word}
use riscv_simulator.Disassemble.Render.{
  text_of, render, shown, integer_shown, padded, join, hexadecimal, digits, digit_byte,
  string_shown, bytes_of,
}
use riscv_simulator.Disassemble.{dis_opcode, disassemble}
use riscv_simulator.Disassemble.Names.{element, reg_name, reg_names}
use riscv_simulator.Disassemble.Immediate.{dis_op_imm}
use riscv_simulator.Inst.Decode.{rd_of, rs1_of, funct3_of, imm_i}
use riscv_simulator.Display.Windows.Draw.{print}
use riscv_simulator.Display.Windows.Value.{letter}
use riscv_simulator.Display.Screen.{Cursor, Blink, display_screen}
use riscv_simulator.Display.Source.{display_source}
use riscv_simulator.Display.{View, update_display, initial_display}
use riscv_simulator.Display.Parts.{IsReady, IsShown}
use riscv_simulator.Display.Frames.{update_display-IsShown}
use riscv_simulator.Display.Transmit.{display_screen-uart_write}
use riscv_simulator.Display.Marked.{marked, row_text, display_source-marked}
use riscv_simulator.Examples.States.{blank, idle_uart}

-- The first round, in step mode.
abbrev view : View
view = record { cpu = blank; mode = cpu_mode; names = λ i. none; frequency = λ n. 0 }

ready : IsReady initial_display view
unfolding initial_display
ready = record {
  cursor_ok = record {
    line_pos = omega arith;
    line_lt = omega arith;
    col_pos = omega arith;
    col_lt = omega arith;
  };
  priv_lt = omega arith;
}

update_display-IsShown_example : IsShown (update_display initial_display view)
update_display-IsShown_example = update_display-IsShown initial_display view ready

-- The letter A in the last column of a window of 27 lines and 80 columns.
abbrev corner : Cursor
corner = record { line = 3; col = 78 }

abbrev steady : Blink
steady = record { should_view = 7; show_cursor = false }

display_screen-uart_write_example :
    (element (display_screen 27 80 corner steady (uart_write idle_uart uart_base_addr 65 1)).3 1
      ≡ some (print 3 78 "%s" (letter 65 ∷ [])))
    × (bit (display_screen 27 80 corner steady (uart_write idle_uart uart_base_addr 65 1)).2.lsr 5
        ≡ 1)
    × (bit (display_screen 27 80 corner steady (uart_write idle_uart uart_base_addr 65 1)).2.lsr 6
        ≡ 1)
    × ((display_screen 27 80 corner steady (uart_write idle_uart uart_base_addr 65 1)).2.thr ≡ 0)
display_screen-uart_write_example =
    display_screen-uart_write 27 80 corner steady idle_uart 65 1 refl (omega arith)
      (λ e. omega (arith, e)) (λ e. omega (arith, e))

-- The memory holds bytes 0x13, which are the instruction `slli t1, t1, 0x11`.
abbrev shift_text : List ℕ
shift_text = codes "slli t1, t1, 0x11"

shift_shown :
    text_of (disassemble (λ i. none) 0x80000000 (load_inst blank 0x80000000) false 100)
    ≡ some shift_text
unfolding text_of disassemble dis_opcode load_inst snprintf render shown integer_shown padded join
    hexadecimal digits digit_byte dis_op_imm funct3_of regs_word reg string_shown bytes_of reg_name
    element reg_names rd_of rs1_of imm_i sra32
shift_shown = refl

display_source-marked_example :
    marked false (display_source (λ i. none) blank 0x80000000 0x80000004).1
    ≡ (17, some (row_text 0x80000000 (load_inst blank 0x80000000) shift_text)) ∷ []
display_source-marked_example =
    display_source-marked (λ i. none) blank 0x80000000 0x80000004 shift_text (omega arith)
      (inr (λ e. omega (arith, e))) shift_shown
