-- ===== src/Display/Windows.antt =====
-- src/display.c and include/display.h: the windows, and what a window is told to draw. ncurses renders it.
use Prim.Native.String.{String}
use riscv_simulator.Prelude.{ℕ, zero, suc, ◌+◌, Option, List, [], ◌++◌}
use riscv_simulator.Disassemble.Text.{Output}

abbrev pub stack_size : ℕ
stack_size = 32

abbrev pub reg_win_width : ℕ
reg_win_width = 30

abbrev pub reg_win_height : ℕ
reg_win_height = 45

abbrev pub status_win_height : ℕ
status_win_height = 3

abbrev pub screen_win_width : ℕ
screen_win_width = 80

abbrev pub screen_win_height : ℕ
screen_win_height = 27

abbrev pub uart_win_height : ℕ
uart_win_height = 8

abbrev pub uart_win_width : ℕ
uart_win_width = 35

abbrev pub clint_win_height : ℕ
clint_win_height = 5

abbrev pub clint_win_width : ℕ
clint_win_width = 35

abbrev pub plic_win_height : ℕ
plic_win_height = 13

abbrev pub plic_win_width : ℕ
plic_win_width = 45

abbrev pub source_win_width : ℕ
source_win_width = 50

abbrev pub source_win_height : ℕ
source_win_height = 34

abbrev pub stack_win_width : ℕ
stack_win_width = 33

abbrev pub stack_win_height : ℕ
stack_win_height = 40

-- The windows that update_display creates.
pub data Window : Type 0 where
  reg_win status_win screen_win uart_win clint_win plic_win source_win stack_win : Window

-- The first two arguments of `create_newwin`.
unfoldable pub height : Window → ℕ
height reg_win = reg_win_height
height status_win = status_win_height
height screen_win = screen_win_height
height uart_win = uart_win_height
height clint_win = clint_win_height
height plic_win = plic_win_height
height source_win = source_win_height
height stack_win = stack_win_height

unfoldable pub width : Window → ℕ
width reg_win = reg_win_width
width status_win = screen_win_width
width screen_win = screen_win_width
width uart_win = uart_win_width
width clint_win = clint_win_width
width plic_win = plic_win_width
width source_win = source_win_width
width stack_win = stack_win_width

-- An argument of `mvwprintw`: an element of a table of strings (`none` is behind its end), an integer,
-- a floating-point number by its pattern, an element of an array of integers, a string of the one byte
-- (of none, if it is 0), or the buffer that `disassemble` prints into (`none` while nothing is).
pub data Value : Type 0 where
  name : Option String → Value
  number : ℕ → Value
  real : ℕ → Value
  entry : Option ℕ → Value
  letter : ℕ → Value
  buffer : Output → Value

-- One call on a window: `wclear`, `box(win, 0, 0)`, `mvwprintw`, `wattron` and `wattroff` of
-- COLOR_PAIR(1), and `wrefresh`.
pub data Draw : Type 0 where
  clear : Draw
  border : Draw
  print : (y x : ℕ) (format : String) (values : List Value) → Draw
  color_on : Draw
  color_off : Draw
  refresh : Draw

-- `for (int i = first; i < first + count; i++)`, what each round draws.
unfoldable pub loop : (ℕ → List Draw) → ℕ → ℕ → List Draw
loop row i zero = []
loop row i (suc count) = row i ++ loop row (i + 1) count
