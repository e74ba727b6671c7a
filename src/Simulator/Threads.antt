-- ===== src/Simulator/Threads.antt =====
-- The state stays valid while the processor, the timer, the keyboard and the display take turns.
use riscv_simulator.Prelude.{ℕ, ◌≡◌, ◌^◌, ◌<◌, some}
use riscv_simulator.State.{Cpu}
use riscv_simulator.State.Valid.{CpuIsValid}
use riscv_simulator.Clint.{timer_tick}
use riscv_simulator.Clint.Valid.{timer_tick-IsValid}
use riscv_simulator.Inst.Float.{Fpu}
use riscv_simulator.Keyboard.{KeyBoardData, keyboard_input}
use riscv_simulator.Simulator.{Settings, cpu_simulator}
use riscv_simulator.Simulator.Round.{SettingsIsValid, cpu_simulator-IsValid}
use riscv_simulator.Disassemble.Names.{CsrNames}
use riscv_simulator.Display.{Display, update_display}
use riscv_simulator.Display.Device.{update_display-IsValid}
use riscv_simulator.Keyboard.Valid.{PressIsValid, keyboard_input-IsValid}

-- The four threads in any order: a round of the processor's loop that does not exit, a round of the
-- timer, a key, and a frame of the display, which may have drawn anything before. Each step is taken
-- whole.
pub data Reaches (fpu : Fpu) (s : Settings) (k : KeyBoardData) : KeyBoardData → Type 0 where
  start : Reaches fpu s k k
  round :
      (d : KeyBoardData) (c : Cpu)
      → Reaches fpu s k d
      → cpu_simulator fpu s d.cpu d.current_mode d.key ≡ some c
      → Reaches fpu s k (record d { cpu = c })
  tick :
      (d : KeyBoardData) → Reaches fpu s k d → Reaches fpu s k (record d { cpu = timer_tick d.cpu })
  press :
      (d : KeyBoardData) (key : ℕ)
      → Reaches fpu s k d
      → key < 2 ^ 8
      → Reaches fpu s k (keyboard_input d key)
  frame :
      (d : KeyBoardData) (display : Display) (names : CsrNames) (frequency : ℕ → ℕ)
      → Reaches fpu s k d
      → Reaches fpu s k (record d {
        cpu =
            (update_display display record {
              cpu = d.cpu;
              mode = d.current_mode;
              names = names;
              frequency = frequency;
            }).1.cpu;
      })

module _ (fpu : Fpu) (s : Settings) (files : SettingsIsValid s) (k : KeyBoardData) where
  reached : (d : KeyBoardData) → PressIsValid k → Reaches fpu s k d → PressIsValid d
  reached d ok start = ok
  reached d ok (round e c way exits') =
      let before = reached e ok way in
      record {
        cpu_ok =
            (cpu_simulator-IsValid fpu files e.current_mode e.key before.cpu_ok).valid c exits';
        key_ok = before.key_ok;
      }
  reached d ok (tick e way) =
      let before = reached e ok way in
      record { cpu_ok = timer_tick-IsValid before.cpu_ok; key_ok = before.key_ok }
  reached d ok (press e key way h) = keyboard_input-IsValid key (reached e ok way) h
  reached d ok (frame e display names frequency way) =
      let before = reached e ok way in
      record { cpu_ok = update_display-IsValid display _ before.cpu_ok; key_ok = before.key_ok }

-- From a valid state, whatever the order in which the processor's thread, the timer, the keyboard
-- and the display take their steps, resets included, every state that is reached is valid.
pub Reaches-IsValid :
    (fpu : Fpu) (s : Settings) (k d : KeyBoardData)
    → SettingsIsValid s
    → CpuIsValid k.cpu
    → k.key < 2 ^ 8
    → Reaches fpu s k d
    → CpuIsValid d.cpu
Reaches-IsValid fpu s k d files ok h way =
    (reached fpu s files k d record { cpu_ok = ok; key_ok = h } way).cpu_ok
