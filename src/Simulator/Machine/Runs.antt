-- ===== src/Simulator/Machine/Runs.antt =====
-- The threads with the display: a run of the machine is a run of its processor, and the display stays
-- drawable.
use riscv_simulator.Prelude.{
  ℕ, ◌≡◌, sym, ap, ◌∙◌, ◌^◌, ◌<◌, Bool, true, false, if◌then◌else◌, Option, none, some, arith,
}
use riscv_simulator.State.{Cpu}
use riscv_simulator.State.Valid.{CpuIsValid}
use riscv_simulator.Clint.{timer_tick}
use riscv_simulator.Inst.Float.{Fpu}
use riscv_simulator.Keyboard.{keyboard_input}
use riscv_simulator.Disassemble.Names.{CsrNames}
use riscv_simulator.Display.{Display, first_frame, update_display}
use riscv_simulator.Display.Terminal.{CursorIsInside}
use riscv_simulator.Display.Parts.{IsReady, IsShown}
use riscv_simulator.Display.Frames.{update_display-IsShown, first_frame-IsShown}
use riscv_simulator.Display.Device.{update_display-cpu, first_frame-cpu}
use riscv_simulator.Simulator.{Settings, cpu_simulator}
use riscv_simulator.Simulator.Round.{SettingsIsValid}
use riscv_simulator.Simulator.Threads.{Reaches, Reaches-IsValid}
use riscv_simulator.Simulator.Machine.{
  Machine, reset_display, resets, machine_round, view_of, shown_by,
}

-- The threads in any order, from a machine: a round of the processor, a round of the timer, a key, the
-- first frame of the display, and another one.
pub data Runs (fpu : Fpu) (s : Settings) (names : CsrNames) (m : Machine) : Machine → Type 0 where
  at_start : Runs fpu s names m m
  on_round :
      (a b : Machine) → Runs fpu s names m a → machine_round fpu s a ≡ some b → Runs fpu s names m b
  on_tick :
      (a : Machine)
      → Runs fpu s names m a
      → Runs fpu s names m
          (record a { keyboard = record a.keyboard { cpu = timer_tick a.keyboard.cpu } })
  on_press :
      (a : Machine) (key : ℕ)
      → Runs fpu s names m a
      → key < 2 ^ 8
      → Runs fpu s names m (record a { keyboard = keyboard_input a.keyboard key })
  on_first :
      (a : Machine) (frequency : ℕ → ℕ)
      → Runs fpu s names m a
      → Runs fpu s names m (
          shown_by a (
            (first_frame a.display (view_of names frequency a)).0,
            (first_frame a.display (view_of names frequency a)).1,
          ))
  on_frame :
      (a : Machine) (frequency : ℕ → ℕ)
      → Runs fpu s names m a
      → Runs fpu s names m (
          shown_by a (
            (update_display a.display (view_of names frequency a)).0,
            (update_display a.display (view_of names frequency a)).1,
          ))

-- The machine that a round leaves, by its parts.
record IsMade (a : Machine) (display : Display) (o : Option Cpu) (r : Option Machine) : Type 0 where
  cpu_made : (b : Machine) → r ≡ some b → o ≡ some b.keyboard.cpu
  keyboard_made :
      (b : Machine) → r ≡ some b → record a.keyboard { cpu = b.keyboard.cpu } ≡ b.keyboard
  display_made : (b : Machine) → r ≡ some b → display ≡ b.display

machine_inj : (a b : Machine) → some a ≡ some b → a ≡ b
machine_inj a b e = cc e

made :
    (a : Machine) (display : Display) (o : Option Cpu)
    → IsMade a display o (elim o [
      | none ↦ none
      | some cpu ↦ some (record { keyboard = record a.keyboard { cpu = cpu }; display = display })
    ])
made a display none = record {
  cpu_made = λ b e. absurd (cc e);
  keyboard_made = λ b e. absurd (cc e);
  display_made = λ b e. absurd (cc e);
}
made a display (some cpu) = record {
  cpu_made = λ b e. ap (λ (m : Machine). some m.keyboard.cpu) (machine_inj _ b e);
  keyboard_made = λ b e.
      ap (λ (m : Machine). record a.keyboard { cpu = m.keyboard.cpu }) (sym (machine_inj _ b e))
      ∙ ap (λ (m : Machine). m.keyboard) (machine_inj _ b e);
  display_made = λ b e. ap (λ (m : Machine). m.display) (machine_inj _ b e);
}

next_display : Machine → Display
next_display a =
    if resets a.keyboard.cpu.fast_mode a.keyboard.current_mode a.keyboard.key
    then (reset_display a.display).0
    else a.display

machine_round-IsMade :
    (fpu : Fpu) (s : Settings) (a : Machine)
    → IsMade a
        (next_display a)
        (cpu_simulator fpu s a.keyboard.cpu a.keyboard.current_mode a.keyboard.key)
        (machine_round fpu s a)
unfolding machine_round next_display
machine_round-IsMade fpu s a =
    made a _ (cpu_simulator fpu s a.keyboard.cpu a.keyboard.current_mode a.keyboard.key)

module _ (fpu : Fpu) (s : Settings) (names : CsrNames) (m : Machine) where
  -- The processor of a run takes the steps of the threads.
  reaches : (b : Machine) → Runs fpu s names m b → Reaches fpu s m.keyboard b.keyboard
  unfolding shown_by view_of
  reaches d at_start = Reaches.start
  reaches d (on_round a b way e) =
      let parts = machine_round-IsMade fpu s a in
      rw (sym (parts.keyboard_made b e))
        (Reaches.round a.keyboard b.keyboard.cpu (reaches a way) (parts.cpu_made b e))
  reaches d (on_tick a way) = Reaches.tick a.keyboard (reaches a way)
  reaches d (on_press a key way h) = Reaches.press a.keyboard key (reaches a way) h
  reaches d (on_first a frequency way) =
      rw
        (
          first_frame-cpu a.display (view_of names frequency a),
          sym (update_display-cpu a.display (view_of names frequency a)),
        )
        (Reaches.frame a.keyboard a.display names frequency (reaches a way))
  reaches d (on_frame a frequency way) =
      Reaches.frame a.keyboard a.display names frequency (reaches a way)

-- The processor's fields fit their types, and the next frame stays inside its windows whatever the
-- frequency that is measured.
pub record MachineIsValid (names : CsrNames) (m : Machine) : Type 0 where
  pub cpu_ok : CpuIsValid m.keyboard.cpu
  pub frame_ok :
      (frequency : ℕ → ℕ) → IsShown (update_display m.display (view_of names frequency m))

home-IsInside : CursorIsInside 27 80 record { line = 1; col = 1 }
home-IsInside = record {
  line_pos = omega arith;
  line_lt = omega arith;
  col_pos = omega arith;
  col_lt = omega arith;
}

if-IsInside :
    (b : Bool) (x y : Display)
    → CursorIsInside 27 80 x.cursor
    → CursorIsInside 27 80 y.cursor
    → CursorIsInside 27 80 (if b then x else y).cursor
if-IsInside true x y p q = p
if-IsInside false x y p q = q

next-IsInside :
    (a : Machine)
    → CursorIsInside 27 80 a.display.cursor
    → CursorIsInside 27 80 (next_display a).cursor
unfolding next_display reset_display
next-IsInside a h =
    if-IsInside (resets a.keyboard.cpu.fast_mode a.keyboard.current_mode a.keyboard.key) _ _
      home-IsInside h

module _ (fpu : Fpu) (s : Settings) (names : CsrNames) (m : Machine) (files : SettingsIsValid s)
    (cpu_ok : CpuIsValid m.keyboard.cpu) (key_ok : m.keyboard.key < 2 ^ 8) where
  reached-IsValid : (b : Machine) → Runs fpu s names m b → CpuIsValid b.keyboard.cpu
  reached-IsValid b way =
      Reaches-IsValid fpu s m.keyboard b.keyboard files cpu_ok key_ok (reaches fpu s names m b way)

  ready :
      (a : Machine) (frequency : ℕ → ℕ)
      → CpuIsValid a.keyboard.cpu
      → CursorIsInside 27 80 a.display.cursor
      → IsReady a.display (view_of names frequency a)
  unfolding view_of
  ready a frequency ok h = record { cursor_ok = h; priv_lt = ok.priv_lt }

  priv :
      (a : Machine)
      → Runs fpu s names m a
      → (frequency : ℕ → ℕ) → (view_of names frequency a).cpu.priv < 4
  unfolding view_of
  priv a way frequency = (reached-IsValid a way).priv_lt

  cursor-IsInside :
      CursorIsInside 27 80 m.display.cursor
      → (b : Machine) → Runs fpu s names m b
      → CursorIsInside 27 80 b.display.cursor
  unfolding shown_by
  cursor-IsInside h d at_start = h
  cursor-IsInside h d (on_round a b way e) =
      rw (sym ((machine_round-IsMade fpu s a).display_made b e))
        (next-IsInside a (cursor-IsInside h a way))
  cursor-IsInside h d (on_tick a way) = cursor-IsInside h a way
  cursor-IsInside h d (on_press a key way g) = cursor-IsInside h a way
  cursor-IsInside h d (on_first a frequency way) =
      (first_frame-IsShown a.display (view_of names frequency a)
        (priv a way frequency)).ready.cursor_ok
  cursor-IsInside h d (on_frame a frequency way) =
      (update_display-IsShown a.display (view_of names frequency a)
        (ready a frequency (reached-IsValid a way) (cursor-IsInside h a way))).ready.cursor_ok

  pub Runs-MachineIsValid :
      CursorIsInside 27 80 m.display.cursor
      → (b : Machine) → Runs fpu s names m b
      → MachineIsValid names b
  Runs-MachineIsValid h b way = record {
    cpu_ok = reached-IsValid b way;
    frame_ok = λ frequency.
        update_display-IsShown b.display (view_of names frequency b)
          (ready b frequency (reached-IsValid b way) (cursor-IsInside h b way));
  }
