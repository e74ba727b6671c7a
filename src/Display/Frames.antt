-- ===== src/Display/Frames.antt =====
-- src/display.c: every frame stays inside its windows, and the cursor on the screen.
use riscv_simulator.Prelude.{◌<◌, Bool, true, false, if◌then◌else◌, arith}
use riscv_simulator.Display.{
  Display, View, Frame, first_frame, fast_frame, step_frame, update_display,
}
use riscv_simulator.Display.Parts.{IsReady, IsShown, in_order-IsShown, parts}

fast_frame-IsShown : (d : Display) (v : View) → IsReady d v → IsShown (fast_frame d v)
unfolding fast_frame
fast_frame-IsShown d v ok = in_order-IsShown _ (search parts depth 20 fits 4000) d v ok

step_frame-IsShown : (d : Display) (v : View) → IsReady d v → IsShown (step_frame d v)
unfolding step_frame
step_frame-IsShown d v ok = in_order-IsShown _ (search parts depth 20 fits 4000) d v ok

if-IsShown :
    (b : Bool) (x y : Display × View × Frame) → IsShown x → IsShown y → IsShown (if b then x else y)
if-IsShown true x y p q = p
if-IsShown false x y p q = q

-- From a cursor inside the screen and a privilege among the four, a round of `update_display` starts
-- every text inside its window, reads no name from outside a table, and leaves the cursor inside the
-- screen and the privilege among the four, in fast mode and in step mode, whatever is displayed.
pub update_display-IsShown : (d : Display) (v : View) → IsReady d v → IsShown (update_display d v)
unfolding update_display
update_display-IsShown d v ok =
    if-IsShown v.cpu.fast_mode _ _ (fast_frame-IsShown d v ok) (step_frame-IsShown d v ok)

-- The first frame starts with the cursor in the upper left corner.
pub first_frame-IsShown : (d : Display) (v : View) → v.cpu.priv < 4 → IsShown (first_frame d v)
unfolding first_frame
first_frame-IsShown d v h = in_order-IsShown _ (search parts depth 20 fits 4000) _ v record {
  cursor_ok = record {
    line_pos = omega arith;
    line_lt = omega arith;
    col_pos = omega arith;
    col_lt = omega arith;
  };
  priv_lt = h;
}
