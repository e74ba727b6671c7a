-- ===== src/Disassemble/Render.antt =====
-- src/disassemble.c and src/display.c: what their formats show, as the C standard describes `%s`, `%d`
-- and `%x` with a field width. An `int` has 32 bits; of a `uint64_t` handed to `%d` or `%x` these show
-- the low 32, as the calling conventions of the 64-bit platforms pass it.
use Prim.Native.String.{String}
use riscv_simulator.Disassemble.Names.{reg_name}
use riscv_simulator.Disassemble.Formats.{reg_name-some}
use riscv_simulator.Prelude.{
  ◌≡◌, ◌≢◌, ◌<◌, refl, ℕ, zero, suc, ◌+◌, ◌-◌, ◌*◌, ◌/◌, ◌%◌, ◌^◌, Bool, ltb, leb, ◌==◌, ◌&&◌,
  if◌then◌else◌, Option, none, some, List, [], ◌∷◌, ◌++◌,
}
use riscv_simulator.Disassemble.Text.{codes, Arg, Output, reg}
use riscv_simulator.Disassemble.Text.Arg.{text, word, long}

-- A byte of the format, or a conversion with what it pads with, its field width and its letter.
pub data Piece : Type 0 where
  plain : ℕ → Piece
  conversion : (pad width letter : ℕ) → Piece

-- Where a format is read: outside a conversion, or behind its `%` with the pad and the width so far.
pub data Place : Type 0 where
  outside : Place
  behind : (pad width : ℕ) → Place

abbrev pub is_digit : ℕ → Bool
is_digit c = leb b'0' c && leb c b'9'

abbrev pub next : Place → ℕ → Place
next Place.outside c = if c == b'%' then Place.behind b' ' 0 else Place.outside
next (Place.behind pad width) c =
    if c == b'0' && width == 0
    then Place.behind b'0' 0
    else if is_digit c
    then Place.behind pad (width * 10 + (c - b'0'))
    else Place.outside

abbrev pub emit : Place → ℕ → List Piece
emit Place.outside c = if c == b'%' then [] else Piece.plain c ∷ []
emit (Place.behind pad width) c = if is_digit c then [] else Piece.conversion pad width c ∷ []

abbrev pub pieces : Place → List ℕ → List Piece
pieces place [] = []
pieces place (c ∷ s) = emit place c ++ pieces (next place c) s

-- One digit of a base up to 16, in lower case.
unfoldable pub digit_byte : ℕ → ℕ
digit_byte d = if ltb d 10 then b'0' + d else b'a' + (d - 10)

-- The last `count` digits of a number in front of a text, without zeros in front.
unfoldable pub digits : ℕ → ℕ → ℕ → List ℕ → List ℕ
digits base zero n out = out
digits base (suc count) n out =
    let out' = digit_byte (n % base) ∷ out in
    let rest = digits base count (n / base) out' in if n / base == 0 then out' else rest

-- `%x`
unfoldable pub hexadecimal : ℕ → List ℕ
hexadecimal n = digits 16 8 (n % 2 ^ 32) []

-- `%d`
unfoldable pub decimal : ℕ → List ℕ
decimal n =
    let m = n % 2 ^ 32 in
    if ltb m (2 ^ 31) then digits 10 10 m [] else b'-' ∷ digits 10 10 (2 ^ 32 - m) []

unfoldable pub size_of : List ℕ → ℕ
size_of [] = 0
size_of (c ∷ s) = suc (size_of s)

unfoldable pub fill : ℕ → ℕ → List ℕ → List ℕ
fill pad zero s = s
fill pad (suc count) s = pad ∷ fill pad count s

-- The pad in front, up to the field width.
unfoldable pub padded : ℕ → ℕ → List ℕ → List ℕ
padded pad width s = if width == 0 then s else fill pad (width - size_of s) s

-- An integer, by the letter of its conversion.
unfoldable pub integer_shown : ℕ → ℕ → ℕ → ℕ → Option (List ℕ)
integer_shown pad width letter n =
    if letter == b'x'
    then some (padded pad width (hexadecimal n))
    else if letter == b'd'
    then some (padded pad width (decimal n))
    else none

-- A string, which only `%s` reads.
unfoldable pub string_shown : ℕ → ℕ → ℕ → Option (List ℕ) → Option (List ℕ)
string_shown pad width letter none = none
string_shown pad width letter (some s) = if letter == b's' then some (padded pad width s) else none

unfoldable pub bytes_of : Option String → Option (List ℕ)
bytes_of none = none
bytes_of (some s) = some (codes s)

unfoldable pub shown : ℕ → ℕ → ℕ → Arg → Option (List ℕ)
shown pad width letter (text s) = string_shown pad width letter (bytes_of s)
shown pad width letter (word n) = integer_shown pad width letter n
shown pad width letter (long n) = integer_shown pad width letter n

unfoldable pub join : Option (List ℕ) → Option (List ℕ) → Option (List ℕ)
join none b = none
join (some s) none = none
join (some s) (some t) = some (s ++ t)

-- `show` is what a conversion makes of an argument. `none`: an argument is missing, or is not of the
-- type that its conversion reads.
unfoldable pub render {ℓ} :
    {A : Type ℓ} → (ℕ → ℕ → ℕ → A → Option (List ℕ)) → List Piece → List A → Option (List ℕ)
render show [] args = some []
render show (Piece.plain c ∷ ps) args = join (some (c ∷ [])) (render show ps args)
render show (Piece.conversion pad width letter ∷ ps) [] = none
render show (Piece.conversion pad width letter ∷ ps) (a ∷ args) =
    join (show pad width letter a) (render show ps args)

abbrev pub rendered {ℓ} :
    {A : Type ℓ} → (ℕ → ℕ → ℕ → A → Option (List ℕ)) → String → List A → Option (List ℕ)
rendered show format args = render show (pieces Place.outside (codes format)) args

-- The text of a print, in a buffer that is large enough for it.
unfoldable pub text_of : Output → Option (List ℕ)
text_of none = none
text_of (some p) = rendered shown p.format p.args

-- A name of `reg_names`, as `%s` shows it.
unfoldable pub register_text : ℕ → List ℕ
register_text i = elim (reg_name i) [ none ↦ [] | some s ↦ codes s ]

pub shown-reg : (i : ℕ) → i < 32 → shown b' ' 0 b's' (reg i) ≡ some (register_text i)
unfolding reg register_text shown string_shown bytes_of padded
shown-reg i h = of_name (reg_name i) (reg_name-some i h)
  where
    of_name :
        (o : Option String)
        → o ≢ none
        → shown b' ' 0 b's' (text o) ≡ some (elim o [ none ↦ [] | some s ↦ codes s ])
    of_name none h = absurd (h refl)
    of_name (some s) h = refl
