-- ===== src/Disassemble/Formats.antt =====
-- The formats of src/disassemble.c against their arguments, as the C standard reads a format.
use Prim.Native.String.{String}
use riscv_simulator.Prelude.{
  ℕ, zero, suc, ◌<◌, ◌≤◌, ◌≡◌, refl, ◌≢◌, Bool, true, false, ◌||◌, leb, ◌&&◌, ◌==◌, if◌then◌else◌,
  Option, none, some, List, [], ◌∷◌, ◌++◌, arith,
}
use riscv_simulator.Disassemble.Names.{element, reg_names, reg_name}
use riscv_simulator.Disassemble.Text.{codes, Arg, Print, Output, snprintf, reg}
use riscv_simulator.Disassemble.Text.Arg.{text, word, long}

-- The type that a conversion asks of its argument.
pub data Kind : Type 0 where
  string : Kind
  integer : Kind

-- A conversion is a `%`, digits, and one of `s`, `d` and `x`.
abbrev kind : ℕ → List Kind
kind c = if c == b's' then string ∷ [] else if c == b'd' || c == b'x' then integer ∷ [] else []

-- `inside`: behind a `%` and its digits.
abbrev conversions : Bool → List ℕ → List Kind
conversions inside [] = []
conversions false (c ∷ s) = conversions (c == b'%') s
conversions true (c ∷ s) = kind c ++ conversions (leb b'0' c && leb c b'9') s

abbrev pub kinds : String → List Kind
kinds format = conversions false (codes format)

-- One argument for each conversion, of its type; no string is a null pointer. If `is_wide`, an integer
-- may also be a `uint64_t`, which is not the type that a conversion of 32 bits reads.
pub data Matches (is_wide : Bool) : List Kind → List Arg → Type 0 where
  no_args : Matches is_wide [] []
  text_arg :
      {s : Option String} {ks : List Kind} {args : List Arg}
      → s ≢ none
      → Matches is_wide ks args
      → Matches is_wide (string ∷ ks) (text s ∷ args)
  word_arg :
      {n : ℕ} {ks : List Kind} {args : List Arg}
      → Matches is_wide ks args
      → Matches is_wide (integer ∷ ks) (word n ∷ args)
  long_arg :
      {n : ℕ} {ks : List Kind} {args : List Arg}
      → is_wide ≡ true
      → Matches is_wide ks args
      → Matches is_wide (integer ∷ ks) (long n ∷ args)

-- What is printed stays in a buffer of this size and has the arguments that its format asks for.
pub data IsPrintable (size : ℕ) (is_wide : Bool) : Output → Type 0 where
  silent : IsPrintable size is_wide none
  prints :
      {p : Print}
      → p.limit ≤ size
      → Matches is_wide (kinds p.format) p.args
      → IsPrintable size is_wide (some p)

pub snprintf-IsPrintable :
    {limit size : ℕ} {is_wide : Bool} (format : String) (args : List Arg)
    → limit ≤ size
    → Matches is_wide (kinds format) args
    → IsPrintable size is_wide (snprintf limit format args)
unfolding snprintf
snprintf-IsPrintable format args h m = IsPrintable.prints h m

pub if-IsPrintable :
    {size : ℕ} {is_wide : Bool} (b : Bool) {x y : Output}
    → IsPrintable size is_wide x
    → IsPrintable size is_wide y
    → IsPrintable size is_wide (if b then x else y)
if-IsPrintable true p q = p
if-IsPrintable false p q = q

-- As above, where the test is known to hold.
pub under_test :
    {size : ℕ} {is_wide : Bool} (b : Bool) {x y : Output}
    → (b ≡ true → IsPrintable size is_wide x)
    → IsPrintable size is_wide y
    → IsPrintable size is_wide (if b then x else y)
under_test true p q = p refl
under_test false p q = q

unfoldable pub length {ℓ} : {A : Type ℓ} → List A → ℕ
length [] = 0
length (x ∷ xs) = suc (length xs)

pub element-some {ℓ} : {A : Type ℓ} (xs : List A) (i : ℕ) → i < length xs → element xs i ≢ none
unfolding element length
element-some [] i h = ground arith
element-some (x ∷ xs) zero h = cc
element-some (x ∷ xs) (suc i) h = element-some xs i (omega arith)

pub reg_name-some : (i : ℕ) → i < 32 → reg_name i ≢ none
unfolding reg_name reg_names length
reg_name-some i h = element-some reg_names i h

pub reg-Matches :
    {is_wide : Bool} (i : ℕ) {ks : List Kind} {args : List Arg}
    → i < 32
    → Matches is_wide ks args
    → Matches is_wide (string ∷ ks) (reg i ∷ args)
unfolding reg
reg-Matches i h m = Matches.text_arg (reg_name-some i h) m

-- The rules for one call of `snprintf`.
pub ruleset printing = (
  snprintf-IsPrintable, IsPrintable.silent, reg-Matches, Matches.no_args, Matches.text_arg,
  Matches.word_arg, Matches.long_arg,
)
