-- ===== src/Disassemble/Text.antt =====
-- src/disassemble.c: what a `snprintf` into the caller's buffer is handed. Render has what it shows.
use Prim.Native.Char.{code}
use Prim.Native.String.{String}
use riscv_simulator.Prelude.{ℕ, Option, some, List, [], ◌∷◌}
use riscv_simulator.Disassemble.Names.{reg_name}

-- The bytes of a text, without the 0 at its end.
abbrev pub codes : String → List ℕ
codes String.[] = []
codes (String.◌∷◌ c s) = code c ∷ codes s

-- A `const char *` (`none` is a null pointer or no element of the table), an integer of 32 bits, or a
-- `uint64_t`.
pub data Arg : Type 0 where
  text : Option String → Arg
  word : ℕ → Arg
  long : ℕ → Arg

pub record Print : Type 0 where
  pub limit : ℕ
  pub format : String
  pub args : List Arg

-- `none` where a function leaves the buffer as it is.
abbrev pub Output : Type 0
Output = Option Print

unfoldable pub snprintf : ℕ → String → List Arg → Output
snprintf limit format args = some (record { limit = limit; format = format; args = args })

-- `reg_names[index]` as an argument.
unfoldable pub reg : ℕ → Arg
reg index = text (reg_name index)

-- The shapes of argument lists that the cases share.
unfoldable pub regs_2 : ℕ → ℕ → List Arg
regs_2 a b = reg a ∷ reg b ∷ []

unfoldable pub regs_3 : ℕ → ℕ → ℕ → List Arg
regs_3 a b c = reg a ∷ reg b ∷ reg c ∷ []

unfoldable pub regs_word : ℕ → ℕ → ℕ → List Arg
regs_word a b n = reg a ∷ reg b ∷ word n ∷ []

unfoldable pub regs_long : ℕ → ℕ → ℕ → List Arg
regs_long a b n = reg a ∷ reg b ∷ long n ∷ []

-- `%s, %d(%s)`
unfoldable pub reg_offset : ℕ → ℕ → ℕ → List Arg
reg_offset a n b = reg a ∷ word n ∷ reg b ∷ []
