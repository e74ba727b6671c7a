-- ===== src/Display.antt =====
-- src/display.c: update_display, one round of its loop at a time. The waits, the colors' set-up and the
-- creation of the windows are not part of the state.
pub mod Windows
pub mod Panels
pub mod Source
pub mod Screen
pub mod Inside
pub mod Rows
pub mod Terminal
pub mod Transmit
pub mod Parts
pub mod Frames
pub mod Marked
pub mod Device
use riscv_simulator.Prelude.{ℕ, false, ◌+◌, ◌%◌, ◌==◌, if◌then◌else◌, List, [], ◌∷◌, ◌++◌}
use riscv_simulator.State.{Cpu}
use riscv_simulator.Keyboard.{Mode, none_mode}
use riscv_simulator.Disassemble.Names.{CsrNames}
use Windows.{Draw, Window, height, width, screen_win_height, screen_win_width}
use Windows.Window.{
  reg_win, status_win, screen_win, uart_win, clint_win, plic_win, source_win, stack_win,
}
use Panels.{
  display_registers, display_stack, display_keyboard_mode, display_uart, display_plic,
  display_clint,
}
use Source.{display_source}
use Screen.{Cursor, Blink, display_screen}

-- The cursor of DisplayData, the `static` variables of the functions, and `i` of update_display.
pub record Display : Type 0 where
  pub cursor : Cursor
  pub blink_state : Blink
  pub old_minstret : ℕ
  pub old_sp : ℕ
  pub old_pc : ℕ
  pub old_mode : Mode
  pub i : ℕ

-- The calls of one frame, each with the window that it draws in.
abbrev pub Frame : Type 0
Frame = List (Window × List Draw)

-- What a frame is drawn from.
pub record View : Type 0 where
  pub cpu : Cpu
  pub mode : Mode
  pub names : CsrNames
  pub frequency : ℕ → ℕ

-- A part of a frame: it changes the display and the processor's UART, and draws.
abbrev pub Part : Type 0
Part = Display → View → Display × View × Frame

unfoldable pub show_registers : Part
show_registers d v =
    let (minstret, draws) = display_registers v.frequency d.old_minstret v.cpu in
    (record d { old_minstret = minstret }, v, (reg_win, draws) ∷ [])

unfoldable pub show_mode : Part
show_mode d v =
    let (mode, draws) = display_keyboard_mode d.old_mode v.mode in
    (record d { old_mode = mode }, v, (status_win, draws) ∷ [])

unfoldable pub show_stack : Part
show_stack d v =
    let (sp, draws) = display_stack d.old_sp v.cpu in
    (record d { old_sp = sp }, v, (stack_win, draws) ∷ [])

unfoldable pub show_source : Part
show_source d v =
    let (pc, draws) = display_source v.names v.cpu v.cpu.pc d.old_pc in
    (record d { old_pc = pc }, v, (source_win, draws) ∷ [])

unfoldable pub show_screen : Part
show_screen d v =
    let (cursor, blink_state, uart, draws) =
      display_screen screen_win_height screen_win_width d.cursor d.blink_state v.cpu.uart in
    (
      record d { cursor = cursor; blink_state = blink_state },
      record v { cpu = record v.cpu { uart = uart } },
      (screen_win, draws) ∷ [],
    )

unfoldable pub show_uart : Part
show_uart d v = (d, v, (uart_win, display_uart v.cpu.uart) ∷ [])

unfoldable pub show_clint : Part
show_clint d v = (d, v, (clint_win, display_clint v.cpu.clint) ∷ [])

unfoldable pub show_plic : Part
show_plic d v = (d, v, (plic_win, display_plic v.cpu.plic) ∷ [])

-- The calls one behind another.
unfoldable pub in_order : List Part → Part
in_order [] d v = (d, v, [])
in_order (part ∷ parts) d v =
    let (d', v', frame) = part d v in
    let (d'', v'', frames) = in_order parts d' v' in (d'', v'', frame ++ frames)

-- In front of the loop; `display->line` and `display->col` are set to 1.
unfoldable pub first_frame : Part
first_frame d v =
    in_order
      (show_registers ∷ show_screen ∷ show_uart ∷ show_clint ∷ show_plic ∷ show_mode ∷ show_stack
        ∷ show_source ∷ [])
      (record d { cursor = record { line = 1; col = 1 } }) v

-- `i++`
unfoldable pub count_round : Part
count_round d v = (record d { i = d.i + 1 }, v, [])

-- The branch of fast mode.
unfoldable pub fast_frame : Part
fast_frame d v =
    in_order
      (show_screen
        ∷ in_order (if d.i % 500 == 0 then show_uart ∷ show_clint ∷ show_plic ∷ [] else [])
        ∷ count_round
        ∷ in_order (
            if d.i % 5000 == 0
            then show_registers ∷ show_mode ∷ show_stack ∷ show_source ∷ []
            else [])
        ∷ [])
      d v

-- The branch of step mode, behind its wait.
unfoldable pub step_frame : Part
step_frame d v =
    in_order
      (show_registers ∷ show_mode ∷ show_screen ∷ show_uart ∷ show_clint ∷ show_plic ∷ show_stack
        ∷ show_source ∷ [])
      d v

-- One round of the loop.
unfoldable pub update_display : Part
update_display d v = if v.cpu.fast_mode then fast_frame d v else step_frame d v

-- The `static` variables when the program starts.
unfoldable pub initial_display : Display
initial_display = record {
  cursor = record { line = 1; col = 1 };
  blink_state = record { should_view = 0; show_cursor = false };
  old_minstret = 0;
  old_sp = 0;
  old_pc = 0;
  old_mode = none_mode;
  i = 0;
}
