-- ===== src/Simulator/Machine.antt =====
-- src/simulator.c and src/display.c together: the processor's threads and the state of the display, which
-- a reset changes too.
pub mod Runs
use riscv_simulator.Prelude.{ℕ, Bool, false, ◌==◌, if◌then◌else◌, Option, none, some, List, [], ◌∷◌}
use riscv_simulator.State.{Cpu}
use riscv_simulator.Inst.Float.{Fpu}
use riscv_simulator.Keyboard.{KeyBoardData, Mode, cpu_mode, uart_mode, none_mode}
use riscv_simulator.Disassemble.Names.{CsrNames}
use riscv_simulator.Display.Windows.{Draw}
use riscv_simulator.Display.Windows.Draw.{clear, border, refresh}
use riscv_simulator.Display.{Display, View}
use riscv_simulator.Simulator.{Settings, cpu_simulator}

pub record Machine : Type 0 where
  pub keyboard : KeyBoardData
  pub display : Display

-- The end of `reset_system`: the cursor goes back, and the screen's window is emptied.
unfoldable pub reset_display : Display → Display × List Draw
reset_display d =
    (record d { cursor = record { line = 1; col = 1 } }, clear ∷ border ∷ refresh ∷ [])

-- Whether a round calls `reset_system`: on the key `r`, in fast mode only while the keyboard is in CPU
-- mode.
unfoldable pub resets : Bool → Mode → ℕ → Bool
resets fast cpu_mode key = key == 114
resets fast uart_mode key = if fast then false else key == 114
resets fast none_mode key = if fast then false else key == 114

-- One round of `cpu_simulator` on both.
unfoldable pub machine_round : Fpu → Settings → Machine → Option Machine
machine_round fpu settings m =
    let k = m.keyboard in
    elim (cpu_simulator fpu settings k.cpu k.current_mode k.key) [
      | none ↦ none
      | some cpu ↦ some (record {
        keyboard = record k { cpu = cpu };
        display =
            if resets k.cpu.fast_mode k.current_mode k.key
            then (reset_display m.display).0
            else m.display;
      })
    ]

-- What the display reads.
unfoldable pub view_of : CsrNames → (ℕ → ℕ) → Machine → View
view_of names frequency m = record {
  cpu = m.keyboard.cpu;
  mode = m.keyboard.current_mode;
  names = names;
  frequency = frequency;
}

-- The machine behind a frame.
unfoldable pub shown_by : Machine → Display × View → Machine
shown_by m (d, v) = record { keyboard = record m.keyboard { cpu = v.cpu }; display = d }
