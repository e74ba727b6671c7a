-- ===== src/Display/Parts.antt =====
-- src/display.c: every part of a frame stays inside its window.
use riscv_simulator.Prelude.{
  ℕ, ◌+◌, ◌<◌, zero, suc, Bool, true, false, if◌then◌else◌, List, [], ◌∷◌, ◌++◌, none, arith,
}
use riscv_simulator.State.{Cpu}
use riscv_simulator.Disassemble.Names.{CsrNames}
use riscv_simulator.Disassemble.Text.{Output}
use riscv_simulator.Display.Windows.{Draw, Window, height, width}
use riscv_simulator.Display.Windows.Window.{
  reg_win, status_win, screen_win, uart_win, clint_win, plic_win, source_win, stack_win,
}
use riscv_simulator.Display.Source.{source_row, source_rows, display_source}
use riscv_simulator.Display.Inside.{AllInside, inside, append-AllInside}
use riscv_simulator.Display.Rows.{
  display_registers-AllInside, display_stack-AllInside, display_keyboard_mode-AllInside,
  display_uart-AllInside, display_plic-AllInside, display_clint-AllInside,
}
use riscv_simulator.Display.Terminal.{
  CursorIsInside, display_screen-IsInside, display_screen-AllInside,
}
use riscv_simulator.Display.{
  Display, View, Frame, Part, show_registers, show_mode, show_stack, show_source, show_screen,
  show_uart, show_clint, show_plic, in_order, count_round,
}

source_row-AllInside :
    (pc address i instruction : ℕ) (text' : Output)
    → i < 32
    → AllInside 34 50 (source_row pc address i instruction text')
unfolding source_row
source_row-AllInside pc address i instruction text' h = search (inside, arith)

module _ (names : CsrNames) (cpu : Cpu) (pc : ℕ) where
  source_rows-AllInside :
      (left : ℕ) (text' : Output) (i : ℕ)
      → i + left < 33
      → AllInside 34 50 (source_rows names cpu pc text' i left)
  unfolding source_rows
  source_rows-AllInside zero text' i h = AllInside.no_draws
  source_rows-AllInside (suc left) text' i h =
      append-AllInside (source_row-AllInside pc _ i _ _ (omega arith))
        (source_rows-AllInside left _ (i + 1) (omega arith))

  display_source-AllInside : (old : ℕ) → AllInside 34 50 (display_source names cpu pc old).1
  unfolding display_source
  display_source-AllInside old =
      let rows = source_rows-AllInside 32 none 0 (omega arith) in search (inside, rows, arith)

-- What a frame finds: the cursor inside the screen, and a privilege that has a name.
pub record IsReady (d : Display) (v : View) : Type 0 where
  pub cursor_ok : CursorIsInside 27 80 d.cursor
  pub priv_lt : v.cpu.priv < 4

pub data FrameIsInside : Frame → Type 0 where
  no_calls : FrameIsInside []
  one_call :
      {w : Window} {ds : List Draw} {frame : Frame}
      → AllInside (height w) (width w) ds
      → FrameIsInside frame
      → FrameIsInside ((w, ds) ∷ frame)

pub record IsShown (r : Display × View × Frame) : Type 0 where
  pub ready : IsReady r.0 r.1
  pub frame_ok : FrameIsInside r.2

pub record PartIsInside (part : Part) : Type 0 where
  pub shows : (d : Display) (v : View) → IsReady d v → IsShown (part d v)

append-FrameIsInside :
    {xs ys : Frame} → FrameIsInside xs → FrameIsInside ys → FrameIsInside (xs ++ ys)
append-FrameIsInside no_calls q = q
append-FrameIsInside (one_call ds p) q = FrameIsInside.one_call ds (append-FrameIsInside p q)

pub data AllParts : List Part → Type 0 where
  no_parts : AllParts []
  one_part :
      {part : Part} {parts : List Part}
      → PartIsInside part
      → AllParts parts
      → AllParts (part ∷ parts)

pub in_order-IsShown :
    (parts : List Part)
    → AllParts parts
    → (d : Display) (v : View) → IsReady d v
    → IsShown (in_order parts d v)
unfolding in_order
in_order-IsShown [] no_parts d v ok = record { ready = ok; frame_ok = FrameIsInside.no_calls }
in_order-IsShown (part ∷ parts) (one_part p ps) d v ok =
    let first = p.shows d v ok in
    let rest = in_order-IsShown parts ps _ _ first.ready in
    record { ready = rest.ready; frame_ok = append-FrameIsInside first.frame_ok rest.frame_ok }

pub in_order-PartIsInside : {parts : List Part} → AllParts parts → PartIsInside (in_order parts)
in_order-PartIsInside {parts} ps = record { shows = in_order-IsShown parts ps }

pub if-AllParts :
    (b : Bool) {xs ys : List Part} → AllParts xs → AllParts ys → AllParts (if b then xs else ys)
if-AllParts true p q = p
if-AllParts false p q = q

alone :
    {w : Window} {ds : List Draw} → AllInside (height w) (width w) ds → FrameIsInside ((w, ds) ∷ [])
alone h = FrameIsInside.one_call h FrameIsInside.no_calls

-- The parts.
pub registers_part : PartIsInside show_registers
unfolding show_registers height width
registers_part = record {
  shows = λ d v ok. record {
    ready = record { cursor_ok = ok.cursor_ok; priv_lt = ok.priv_lt };
    frame_ok =
        alone {w = reg_win}
          (display_registers-AllInside v.frequency d.old_minstret v.cpu ok.priv_lt);
  };
}

pub mode_part : PartIsInside show_mode
unfolding show_mode height width
mode_part = record {
  shows = λ d v ok. record {
    ready = record { cursor_ok = ok.cursor_ok; priv_lt = ok.priv_lt };
    frame_ok = alone {w = status_win} (display_keyboard_mode-AllInside d.old_mode v.mode);
  };
}

pub stack_part : PartIsInside show_stack
unfolding show_stack height width
stack_part = record {
  shows = λ d v ok. record {
    ready = record { cursor_ok = ok.cursor_ok; priv_lt = ok.priv_lt };
    frame_ok = alone {w = stack_win} (display_stack-AllInside d.old_sp v.cpu);
  };
}

pub source_part : PartIsInside show_source
unfolding show_source height width
source_part = record {
  shows = λ d v ok. record {
    ready = record { cursor_ok = ok.cursor_ok; priv_lt = ok.priv_lt };
    frame_ok = alone {w = source_win} (display_source-AllInside v.names v.cpu v.cpu.pc d.old_pc);
  };
}

pub uart_part : PartIsInside show_uart
unfolding show_uart height width
uart_part = record {
  shows = λ d v ok. record {
    ready = record { cursor_ok = ok.cursor_ok; priv_lt = ok.priv_lt };
    frame_ok = alone {w = uart_win} (display_uart-AllInside v.cpu.uart);
  };
}

pub clint_part : PartIsInside show_clint
unfolding show_clint height width
clint_part = record {
  shows = λ d v ok. record {
    ready = record { cursor_ok = ok.cursor_ok; priv_lt = ok.priv_lt };
    frame_ok = alone {w = clint_win} (display_clint-AllInside v.cpu.clint);
  };
}

pub plic_part : PartIsInside show_plic
unfolding show_plic height width
plic_part = record {
  shows = λ d v ok. record {
    ready = record { cursor_ok = ok.cursor_ok; priv_lt = ok.priv_lt };
    frame_ok = alone {w = plic_win} (display_plic-AllInside v.cpu.plic);
  };
}

pub screen_part : PartIsInside show_screen
unfolding show_screen height width
screen_part = record {
  shows = λ d v ok. record {
    ready = record {
      cursor_ok =
          display_screen-IsInside 27 80 (omega arith) (omega arith) d.cursor d.blink_state
            v.cpu.uart ok.cursor_ok;
      priv_lt = ok.priv_lt;
    };
    frame_ok = alone {w = screen_win} (
        display_screen-AllInside 27 80 (omega arith) (omega arith) d.cursor d.blink_state v.cpu.uart
          ok.cursor_ok);
  };
}

pub count_part : PartIsInside count_round
unfolding count_round
count_part = record {
  shows = λ d v ok. record {
    ready = record { cursor_ok = ok.cursor_ok; priv_lt = ok.priv_lt };
    frame_ok = FrameIsInside.no_calls;
  };
}

pub ruleset parts = (
  AllParts.no_parts, AllParts.one_part, if-AllParts, in_order-PartIsInside, registers_part,
  mode_part, stack_part, source_part, uart_part, clint_part, plic_part, screen_part, count_part,
)
