-- ===== src/Display/Terminal.antt =====
-- src/display.c: the terminal's cursor, and the byte that is shown.
use Prim.Native.String.{String}
use riscv_simulator.Prelude.{
  ℕ, ◌+◌, ◌%◌, ◌≤◌, ◌<◌, Bool, true, false, ◌==◌, if◌then◌else◌, List, [], ◌∷◌, arith,
}
use riscv_simulator.State.{Uart}
use riscv_simulator.Display.Windows.{Draw, Value}
use riscv_simulator.Display.Windows.Draw.{print}
use riscv_simulator.Display.Windows.Value.{letter}
use riscv_simulator.Display.Screen.{
  Cursor, Blink, advance, backspace, put_byte, wrap, has_byte, show_byte, blink, display_screen,
}
use riscv_simulator.Display.Inside.{AllInside, AllDefined, inside, if_second-AllInside}

-- Off the border of the window.
pub record CursorIsInside (maxy maxx : ℕ) (c : Cursor) : Type 0 where
  pub line_pos : 1 ≤ c.line
  pub line_lt : c.line + 1 < maxy
  pub col_pos : 1 ≤ c.col
  pub col_lt : c.col + 1 < maxx

-- Between a byte and the wrap the line may be one further down.
record IsNear (maxy maxx : ℕ) (c : Cursor) : Type 0 where
  line_pos : 1 ≤ c.line
  line_lt : c.line < maxy
  col_pos : 1 ≤ c.col
  col_lt : c.col + 1 < maxx

module _ (maxy maxx : ℕ) (wide : 2 < maxx) where
  advance-IsNear : (c : Cursor) → CursorIsInside maxy maxx c → IsNear maxy maxx (advance maxx c)
  unfolding advance
  advance-IsNear c h = record {
    line_pos = ground (arith, h.line_pos);
    line_lt = ground (arith, h.line_lt);
    col_pos = ground (arith, h.col_pos);
    col_lt = ground (arith, h.col_lt);
  }

  backspace-IsNear : (c : Cursor) → CursorIsInside maxy maxx c → IsNear maxy maxx (backspace maxx c)
  unfolding backspace
  backspace-IsNear c h = record {
    line_pos = ground (arith, h.line_pos);
    line_lt = ground (arith, h.line_lt);
    col_pos = ground (arith, h.col_pos);
    col_lt = ground (arith, h.col_lt);
  }

  newline-IsNear :
      (c : Cursor)
      → CursorIsInside maxy maxx c
      → IsNear maxy maxx (record { line = c.line + 1; col = 1 })
  newline-IsNear c h = record {
    line_pos = omega arith;
    line_lt = omega (arith, h.line_lt);
    col_pos = omega arith;
    col_lt = omega arith;
  }

  if-IsNear :
      (b : Bool) (x y : Cursor × List Draw)
      → IsNear maxy maxx x.0
      → IsNear maxy maxx y.0
      → IsNear maxy maxx (if b then x else y).0
  if-IsNear true x y p q = p
  if-IsNear false x y p q = q

  put_byte-IsNear :
      (c : Cursor) (value : ℕ)
      → CursorIsInside maxy maxx c
      → IsNear maxy maxx (put_byte maxx c value).0
  unfolding put_byte
  put_byte-IsNear c value h =
      if-IsNear (value == 10) _ _ (newline-IsNear c h)
        (if-IsNear (value == 8) _ _ (backspace-IsNear c h) (advance-IsNear c h))

  if-IsInside :
      (b : Bool) (x y : Cursor × List Draw)
      → CursorIsInside maxy maxx x.0
      → CursorIsInside maxy maxx y.0
      → CursorIsInside maxy maxx (if b then x else y).0
  if-IsInside true x y p q = p
  if-IsInside false x y p q = q

  wrap-IsInside :
      (2 < maxy)
      → (r : Cursor × List Draw) → IsNear maxy maxx r.0
      → CursorIsInside maxy maxx (wrap maxy r).0
  unfolding wrap
  wrap-IsInside tall r h = record {
    line_pos = ground (arith, h.line_pos);
    line_lt = ground (arith, h.line_lt);
    col_pos = ground (arith, h.col_pos);
    col_lt = ground (arith, h.col_lt);
  }

  wrap-AllInside :
      (r : Cursor × List Draw) → AllInside maxy maxx r.1 → AllInside maxy maxx (wrap maxy r).1
  unfolding wrap
  wrap-AllInside r h = search (inside, h, arith)

  at_cursor-AllInside :
      (c : Cursor) (f : String) (vs : List Value)
      → CursorIsInside maxy maxx c
      → AllDefined vs
      → AllInside maxy maxx (print c.line c.col f vs ∷ [])
  at_cursor-AllInside c f vs h v =
      AllInside.print_draw (omega (arith, h.line_lt)) (omega (arith, h.col_lt)) v AllInside.no_draws

  put_byte-AllInside :
      (c : Cursor) (value : ℕ)
      → CursorIsInside maxy maxx c
      → AllInside maxy maxx (put_byte maxx c value).1
  unfolding put_byte
  put_byte-AllInside c value h = if_second-AllInside (value == 10) _ _ AllInside.no_draws (
      if_second-AllInside (value == 8) _ _ AllInside.no_draws (
        at_cursor-AllInside c "%s" (letter value ∷ []) h
          (AllDefined.letter_value AllDefined.no_values)))

  show_byte-IsInside :
      (2 < maxy)
      → (c : Cursor) (uart : Uart) → CursorIsInside maxy maxx c
      → CursorIsInside maxy maxx (show_byte maxy maxx c uart).0
  unfolding show_byte
  show_byte-IsInside tall c uart h =
      if-IsInside (has_byte uart) _ _ (wrap-IsInside tall _ (put_byte-IsNear c uart.thr h)) h

  show_byte-AllInside :
      (c : Cursor) (uart : Uart)
      → CursorIsInside maxy maxx c
      → AllInside maxy maxx (show_byte maxy maxx c uart).1
  unfolding show_byte
  show_byte-AllInside c uart h =
      if_second-AllInside (has_byte uart) _ _ (wrap-AllInside _ (put_byte-AllInside c uart.thr h))
        AllInside.no_draws

  blink-AllInside :
      (b : Blink) (c : Cursor) → CursorIsInside maxy maxx c → AllInside maxy maxx (blink b c).1
  unfolding blink
  blink-AllInside b c h =
      if_second-AllInside (b.should_view % 500 == 0) _ _
        (if_second-AllInside b.show_cursor _ _ (at_cursor-AllInside c "_" [] h AllDefined.no_values)
          (at_cursor-AllInside c " " [] h AllDefined.no_values))
        AllInside.no_draws

  pub display_screen-IsInside :
      (2 < maxy)
      → (c : Cursor) (b : Blink) (uart : Uart) → CursorIsInside maxy maxx c
      → CursorIsInside maxy maxx (display_screen maxy maxx c b uart).0
  unfolding display_screen
  display_screen-IsInside tall c b uart h = show_byte-IsInside tall c uart h

  pub display_screen-AllInside :
      (2 < maxy)
      → (c : Cursor) (b : Blink) (uart : Uart) → CursorIsInside maxy maxx c
      → AllInside maxy maxx (display_screen maxy maxx c b uart).3
  unfolding display_screen
  display_screen-AllInside tall c b uart h =
      let drawn = show_byte-AllInside c uart h in
      let sign = blink-AllInside b _ (show_byte-IsInside tall c uart h) in
      search (inside, drawn, sign, arith)
