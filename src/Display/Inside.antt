-- ===== src/Display/Inside.antt =====
-- src/display.c: what it means that a drawing stays inside its window.
use riscv_simulator.Prelude.{
  ℕ, zero, suc, ◌+◌, ◌≤◌, ◌<◌, ◌≢◌, Bool, true, false, if◌then◌else◌, Option, none, List, [], ◌∷◌,
  ◌++◌, arith,
}
use Prim.Native.String.{String}
use riscv_simulator.Disassemble.Text.{Output}
use riscv_simulator.Display.Windows.{Draw, Value, loop}
use riscv_simulator.Display.Windows.Draw.{clear, border, print, color_on, color_off, refresh}
use riscv_simulator.Display.Windows.Value.{name, number, real, entry, letter, buffer}

-- No argument is read from behind the end of a table.
pub data AllDefined : List Value → Type 0 where
  no_values : AllDefined []
  name_value :
      {s : Option String} {vs : List Value} → s ≢ none → AllDefined vs → AllDefined (name s ∷ vs)
  number_value : {n : ℕ} {vs : List Value} → AllDefined vs → AllDefined (number n ∷ vs)
  real_value : {n : ℕ} {vs : List Value} → AllDefined vs → AllDefined (real n ∷ vs)
  entry_value :
      {o : Option ℕ} {vs : List Value} → o ≢ none → AllDefined vs → AllDefined (entry o ∷ vs)
  letter_value : {n : ℕ} {vs : List Value} → AllDefined vs → AllDefined (letter n ∷ vs)
  buffer_value : {o : Output} {vs : List Value} → AllDefined vs → AllDefined (buffer o ∷ vs)

-- Every text starts inside a window of this height and width.
pub data AllInside (h w : ℕ) : List Draw → Type 0 where
  no_draws : AllInside h w []
  clear_draw : {ds : List Draw} → AllInside h w ds → AllInside h w (clear ∷ ds)
  border_draw : {ds : List Draw} → AllInside h w ds → AllInside h w (border ∷ ds)
  on_draw : {ds : List Draw} → AllInside h w ds → AllInside h w (color_on ∷ ds)
  off_draw : {ds : List Draw} → AllInside h w ds → AllInside h w (color_off ∷ ds)
  refresh_draw : {ds : List Draw} → AllInside h w ds → AllInside h w (refresh ∷ ds)
  print_draw :
      {y x : ℕ} {f : String} {vs : List Value} {ds : List Draw}
      → y < h
      → x < w
      → AllDefined vs
      → AllInside h w ds
      → AllInside h w (print y x f vs ∷ ds)

pub append-AllInside :
    {h w : ℕ} {xs ys : List Draw} → AllInside h w xs → AllInside h w ys → AllInside h w (xs ++ ys)
append-AllInside no_draws q = q
append-AllInside (clear_draw p) q = AllInside.clear_draw (append-AllInside p q)
append-AllInside (border_draw p) q = AllInside.border_draw (append-AllInside p q)
append-AllInside (on_draw p) q = AllInside.on_draw (append-AllInside p q)
append-AllInside (off_draw p) q = AllInside.off_draw (append-AllInside p q)
append-AllInside (refresh_draw p) q = AllInside.refresh_draw (append-AllInside p q)
append-AllInside (print_draw hy hx vs p) q = AllInside.print_draw hy hx vs (append-AllInside p q)

pub if-AllInside :
    {h w : ℕ} (b : Bool) {xs ys : List Draw}
    → AllInside h w xs
    → AllInside h w ys
    → AllInside h w (if b then xs else ys)
if-AllInside true p q = p
if-AllInside false p q = q

pub if_second-AllInside :
    {h w : ℕ} {A : Type 0} (b : Bool) (xs ys : A × List Draw)
    → AllInside h w xs.1
    → AllInside h w ys.1
    → AllInside h w (if b then xs else ys).1
if_second-AllInside true xs ys p q = p
if_second-AllInside false xs ys p q = q

pub loop-AllInside :
    {h w : ℕ} (row : ℕ → List Draw) (i count last : ℕ)
    → i + count ≤ last
    → ((j : ℕ) → j < last → AllInside h w (row j))
    → AllInside h w (loop row i count)
unfolding loop
loop-AllInside row i zero last e h = AllInside.no_draws
loop-AllInside row i (suc count) last e h =
    append-AllInside (h i (omega arith)) (loop-AllInside row (i + 1) count last (omega arith) h)

pub ruleset inside = (
  AllDefined.no_values, AllDefined.name_value, AllDefined.number_value, AllDefined.real_value,
  AllDefined.entry_value, AllDefined.letter_value, AllDefined.buffer_value, AllInside.no_draws,
  AllInside.clear_draw, AllInside.border_draw, AllInside.on_draw, AllInside.off_draw,
  AllInside.refresh_draw, AllInside.print_draw, append-AllInside, if-AllInside, if_second-AllInside,
)
