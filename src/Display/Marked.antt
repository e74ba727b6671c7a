-- ===== src/Display/Marked.antt =====
-- src/display.c: the row of the source window that is in color.
use riscv_simulator.Prelude.{
  ℕ, zero, suc, ◌≡◌, ◌≢◌, ◌⊎◌, refl, ◌∙◌, ap, ◌+◌, ◌*◌, ◌^◌, ◌<◌, Bool, true, false, Bool-cases,
  inl, inr, leb, ◌==◌, ◌!=◌, ◌&&◌, if◌then◌else◌, List, [], ◌∷◌, ◌++◌, Option, some, none, arith,
  ==→eq, u64, sub64,
}
use mathlib.Core.List.{append-nil, append_assoc}
use riscv_simulator.State.{Cpu}
use riscv_simulator.Memory.{load_inst}
use riscv_simulator.Disassemble.Names.{CsrNames}
use riscv_simulator.Disassemble.Text.{codes, Output}
use riscv_simulator.Disassemble.Render.{
  text_of, render, rendered, join, padded, hexadecimal, bytes_of, string_shown, integer_shown,
}
use riscv_simulator.Disassemble.{disassemble}
use riscv_simulator.Display.Windows.{Draw, Value}
use riscv_simulator.Display.Windows.Draw.{clear, border, print, color_on, color_off, refresh}
use riscv_simulator.Display.Windows.Value.{name, number, real, entry, letter, buffer}
use riscv_simulator.Display.Source.{overwrite, source_row, source_rows, display_source}

-- An argument of `mvwprintw` under `%s`, `%d` or `%x`; a floating-point number has no such text.
unfoldable pub value_shown : ℕ → ℕ → ℕ → Value → Option (List ℕ)
value_shown pad width letter' (name s) = string_shown pad width letter' (bytes_of s)
value_shown pad width letter' (number n) = integer_shown pad width letter' n
value_shown pad width letter' (real n) = none
value_shown pad width letter' (entry none) = none
value_shown pad width letter' (entry (some n)) = integer_shown pad width letter' n
value_shown pad width letter' (letter c) =
    string_shown pad width letter' (some (if c == 0 then [] else c ∷ []))
value_shown pad width letter' (buffer o) = string_shown pad width letter' (text_of o)

-- The rows and the texts that are printed in color; `on`: the color is on.
unfoldable pub marked : Bool → List Draw → List (ℕ × Option (List ℕ))
marked on [] = []
marked on (color_on ∷ ds) = marked true ds
marked on (color_off ∷ ds) = marked false ds
marked on (clear ∷ ds) = marked on ds
marked on (border ∷ ds) = marked on ds
marked on (refresh ∷ ds) = marked on ds
marked true (print y x f vs ∷ ds) = (y, rendered value_shown f vs) ∷ marked true ds
marked false (print y x f vs ∷ ds) = marked false ds

-- `0x%08x`
unfoldable pub hexadecimal_8 : ℕ → List ℕ
hexadecimal_8 n = codes "0x" ++ padded b'0' 8 (hexadecimal n)

-- An address, an instruction and the text of the instruction.
unfoldable pub row_text : ℕ → ℕ → List ℕ → List ℕ
row_text address instruction t =
    hexadecimal_8 address ++ (codes ">: " ++ (hexadecimal_8 instruction ++ (codes "  " ++ t)))

-- The same, as `display_source` prints it.
abbrev shown_row : ℕ → ℕ → Output → Option (List ℕ)
shown_row address instruction text' =
    rendered value_shown "0x%08x>: 0x%08x  %s"
      (number address ∷ number instruction ∷ buffer text' ∷ [])

shown_row-row_text :
    (address instruction : ℕ) (text' : Output) (t : List ℕ)
    → text_of text' ≡ some t
    → shown_row address instruction text' ≡ some (row_text address instruction t)
unfolding row_text hexadecimal_8 render join value_shown integer_shown string_shown padded
shown_row-row_text address instruction text' t h = rw (h, append-nil t) refl

overwrite-text :
    (old new : Output) (t : List ℕ) → text_of new ≡ some t → text_of (overwrite old new) ≡ some t
unfolding overwrite text_of
overwrite-text old none t h = absurd (ground arith)
overwrite-text old (some p) t h = h

row_address : (pc i : ℕ) → pc < 2 ^ 64 → i < 32 → (u64 (sub64 pc 64 + i * 4) == pc) ≡ (i == 16)
row_address pc i h g = ground arith

marked-source_row :
    (pc address i instruction : ℕ) (text' : Output) (rest : List Draw)
    → marked false (source_row pc address i instruction text' ++ rest) ≡ (
        if address == pc
        then (i + 1, shown_row address instruction text') ∷ marked false rest
        else marked false rest)
unfolding source_row marked
marked-source_row pc address i instruction text' rest = ground arith

module _ (names : CsrNames) (cpu : Cpu) (pc : ℕ) (pc_lt : pc < 2 ^ 64) (t : List ℕ)
    (prints : text_of (disassemble names pc (load_inst cpu pc) false 100) ≡ some t) where
  abbrev pc_row : List (ℕ × Option (List ℕ))
  pc_row = (17, some (row_text pc (load_inst cpu pc) t)) ∷ []

  step :
      (address i : ℕ) (text' : Output) (ms : List (ℕ × Option (List ℕ)))
      → (address == pc) ≡ (i == 16)
      → ms ≡ (if leb (i + 1) 16 then pc_row else [])
      → (if address == pc
          then (
            i + 1,
            shown_row address
                (load_inst cpu address)
                (overwrite text' (disassemble names address (load_inst cpu address) false 100)),
          )
            ∷ ms
          else ms)
        ≡ (if leb i 16 then pc_row else [])
  step address i text' ms here rest =
      let row =
        shown_row-row_text pc (load_inst cpu pc) _ t
          (overwrite-text text' (disassemble names pc (load_inst cpu pc) false 100) t prints) in
      elim (Bool-cases (address == pc)) [
        | inl at ↦
            rw (==→eq address pc at, row) (ground (arith, rest, at, here, ==→eq address pc at))
        | inr off ↦ ground (arith, rest)
      ]

  marked-source_rows :
      (left : ℕ) (text' : Output) (i : ℕ)
      → i + left ≡ 32
      → marked false (source_rows names cpu pc text' i left ++ refresh ∷ [])
        ≡ (if leb i 16 then pc_row else [])
  unfolding source_rows marked
  marked-source_rows zero text' i h = ground arith
  marked-source_rows (suc left) text' i h =
      let address = u64 (sub64 pc 64 + i * 4) in
      let instruction = load_inst cpu address in
      let text'' = overwrite text' (disassemble names address instruction false 100) in
      let rest = marked-source_rows left text'' (i + 1) (omega arith) in
      let here = row_address pc i pc_lt (omega arith) in
      ap (marked false) (append_assoc (source_row pc address i instruction text'') _ _)
      ∙ marked-source_row pc address i instruction text'' _
      ∙ step address i text' _ here rest

is_redrawn : (old pc : ℕ) → (old ≡ 0) ⊎ (old ≢ pc) → (old != 0 && old == pc) ≡ false
is_redrawn old pc (inl h) = ground arith
is_redrawn old pc (inr h) = ground arith

-- If the source window is redrawn, since it has not been drawn or the pc is another one, the pc has 64
-- bits and `disassemble` prints a text for the instruction stored there, then exactly one text is
-- printed in color, in row 17: the low 32 bits of the pc and the instruction, each in hexadecimal with
-- eight digits, and that text.
pub display_source-marked :
    (names : CsrNames) (cpu : Cpu) (pc old : ℕ) (t : List ℕ)
    → pc < 2 ^ 64
    → (old ≡ 0) ⊎ (old ≢ pc)
    → text_of (disassemble names pc (load_inst cpu pc) false 100) ≡ some t
    → marked false (display_source names cpu pc old).1
      ≡ (17, some (row_text pc (load_inst cpu pc) t)) ∷ []
unfolding display_source marked
display_source-marked names cpu pc old t h changed prints =
    rw (is_redrawn old pc changed) (marked-source_rows names cpu pc h t prints 32 none 0 refl)
