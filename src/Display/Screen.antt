-- ===== src/Display/Screen.antt =====
-- src/display.c: display_screen, the terminal. It takes the byte that the guest left in the transmit
-- register. `getmaxx(win)` and `getmaxy(win)` are the width and the height that the window was created
-- with, at least 2, so that no difference below is negative.
use riscv_simulator.Prelude.{
  ℕ, Bool, true, false, ◌+◌, ◌-◌, ◌%◌, ◌^◌, ltb, leb, ◌==◌, if◌then◌else◌, List, [], ◌∷◌, ◌++◌,
  bit_and, bit_or,
}
use riscv_simulator.State.{Uart}
use riscv_simulator.Uart.{lsr_thre}
use riscv_simulator.Display.Windows.{Draw}
use riscv_simulator.Display.Windows.Draw.{clear, border, print, refresh}
use riscv_simulator.Display.Windows.Value.{letter}

abbrev pub lsr_tx_idle : ℕ
lsr_tx_idle = 2 ^ 5

-- `line` and `col` of DisplayData.
pub record Cursor : Type 0 where
  pub line : ℕ
  pub col : ℕ

-- The two `static` variables of display_screen.
pub record Blink : Type 0 where
  pub should_view : ℕ
  pub show_cursor : Bool

-- `mvwprintw(win, line, col++, "%s", buffer)` and the step to the next line.
unfoldable pub advance : ℕ → Cursor → Cursor
advance maxx c =
    if leb (maxx - 1) (c.col + 1)
    then record { line = c.line + 1; col = 1 }
    else record c { col = c.col + 1 }

unfoldable pub backspace : ℕ → Cursor → Cursor
backspace maxx c =
    if ltb 1 c.col
    then record c { col = c.col - 1 }
    else if ltb 1 c.line
    then record { line = c.line - 1; col = maxx - 2 }
    else c

-- The cases of the byte.
unfoldable pub put_byte : ℕ → Cursor → ℕ → Cursor × List Draw
put_byte maxx c value =
    if value == 10
    then (record { line = c.line + 1; col = 1 }, [])
    else if value == 8
    then (backspace maxx c, [])
    else (advance maxx c, print c.line c.col "%s" (letter value ∷ []) ∷ [])

-- The window is cleared when the cursor has reached its end.
unfoldable pub wrap : ℕ → Cursor × List Draw → Cursor × List Draw
wrap maxy (c, draws) =
    if leb (maxy - 1) c.line
    then (record { line = 1; col = 1 }, draws ++ clear ∷ border ∷ [])
    else (c, draws)

unfoldable pub has_byte : Uart → Bool
has_byte uart = bit_and uart.lsr lsr_tx_idle == 0

-- `uart->LSR |= LSR_THRE; uart->THR = 0`, behind a byte.
unfoldable pub transmit : Uart → Uart
transmit uart =
    if has_byte uart then record uart { lsr = bit_or uart.lsr lsr_thre; thr = 0 } else uart

-- The part of display_screen on a byte; `transmit` is its effect on the device.
unfoldable pub show_byte : ℕ → ℕ → Cursor → Uart → Cursor × List Draw
show_byte maxy maxx c uart = if has_byte uart then wrap maxy (put_byte maxx c uart.thr) else (c, [])

-- The sign at the cursor, on every 500th call.
unfoldable pub blink : Blink → Cursor → Blink × List Draw
blink b c =
    if b.should_view % 500 == 0
    then (if b.show_cursor
        then (
          record { should_view = b.should_view + 1; show_cursor = false },
          print c.line c.col "_" [] ∷ [],
        )
        else (
          record { should_view = b.should_view + 1; show_cursor = true },
          print c.line c.col " " [] ∷ [],
        ))
    else (record b { should_view = b.should_view + 1 }, [])

unfoldable pub display_screen : ℕ → ℕ → Cursor → Blink → Uart → Cursor × Blink × Uart × List Draw
display_screen maxy maxx c b uart =
    let (c', draws) = show_byte maxy maxx c uart in
    let (b', sign) = blink b c' in
    (c', b', transmit uart, print 0 1 "Screen(80*25)" [] ∷ (draws ++ sign ++ refresh ∷ []))
