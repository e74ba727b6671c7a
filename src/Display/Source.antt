-- ===== src/Display/Source.antt =====
-- src/display.c: display_source.
use riscv_simulator.Prelude.{
  ℕ, zero, suc, false, ◌+◌, ◌*◌, ◌==◌, ◌!=◌, ◌&&◌, if◌then◌else◌, none, some, List, [], ◌∷◌, ◌++◌,
  u64, sub64,
}
use riscv_simulator.State.{Cpu}
use riscv_simulator.Memory.{load_inst}
use riscv_simulator.Disassemble.Names.{CsrNames}
use riscv_simulator.Disassemble.Text.{Output}
use riscv_simulator.Disassemble.{disassemble}
use riscv_simulator.Display.Windows.{Draw}
use riscv_simulator.Display.Windows.Draw.{clear, border, print, color_on, color_off, refresh}
use riscv_simulator.Display.Windows.Value.{number, buffer}

-- What the buffer holds behind a call: the new print, or what it held.
unfoldable pub overwrite : Output → Output → Output
overwrite old none = old
overwrite old (some p) = some p

-- Row `i + 1`, with the pc's row in color.
unfoldable pub source_row : ℕ → ℕ → ℕ → ℕ → Output → List Draw
source_row pc address i instruction text' =
    let values = number address ∷ number instruction ∷ buffer text' ∷ [] in
    if address == pc
    then color_on ∷ print (i + 1) 1 "0x%08x>: 0x%08x  %s" values ∷ color_off ∷ []
    else print (i + 1) 1 "0x%08x : 0x%08x  %s" values ∷ []

module _ (names : CsrNames) (cpu : Cpu) (pc : ℕ) where
  -- The rounds from `i` on; the buffer keeps its text from one round to the next.
  unfoldable pub source_rows : Output → ℕ → ℕ → List Draw
  source_rows text' i zero = []
  source_rows text' i (suc left) =
      let address = u64 (sub64 pc 64 + i * 4) in
      let instruction = load_inst cpu address in
      let text'' = overwrite text' (disassemble names address instruction false 100) in
      source_row pc address i instruction text'' ++ source_rows text'' (i + 1) left

  -- The first result is the new `old_pc`. The local buffer starts with no text.
  unfoldable pub display_source : ℕ → ℕ × List Draw
  display_source old_pc = if old_pc != 0 && old_pc == pc then (old_pc, []) else (
    pc,
    clear
        ∷ border
        ∷ print 0 1 "Source (0x%016llx):" (number pc ∷ [])
        ∷ (source_rows none 0 32 ++ refresh ∷ []),
  )
