-- ===== src/Helper.antt =====
-- src/helper.c: parse_arguments. `getopt_long` and `strtoull` are the C library's: what the successive
-- calls of `getopt_long` return, up to its -1, and the value of `strtoull(s, NULL, 0)` are parameters.
-- The messages on stderr are not modelled.
pub mod Settled
use Prim.Native.String.{String}
use riscv_simulator.Prelude.{
  ℕ, Bool, true, false, ltb, leb, ◌==◌, ◌||◌, if◌then◌else◌, Option, none, some, List, [], ◌∷◌,
}
use riscv_simulator.Memory.{memory_end_addr}

-- One return of `getopt_long` with the `optarg` that it set; `none` is a null pointer.
pub record Choice : Type 0 where
  pub letter : ℕ
  pub optarg : Option String

-- What the three pointer arguments point to.
pub record Arguments : Type 0 where
  pub input_file : Option String
  pub load_address : ℕ
  pub end_address : ℕ

-- `optarg == NULL || *optarg == '\0'`
unfoldable pub is_missing : Option String → Bool
is_missing none = true
is_missing (some String.[]) = true
is_missing (some (String.◌∷◌ c s)) = false

unfoldable pub is_null : Option String → Bool
is_null none = true
is_null (some s) = false

unfoldable pub default_end : Arguments → Arguments
default_end args =
    if args.end_address == 0 then record args { end_address = memory_end_addr } else args

unfoldable pub is_out_of_range : Arguments → Bool
is_out_of_range args =
    leb memory_end_addr args.load_address
    || ltb memory_end_addr args.end_address
    || leb args.end_address args.load_address

-- What stands behind the loop, with the value that is returned.
unfoldable pub check_arguments : Arguments → ℕ × Arguments
check_arguments args =
    if is_null args.input_file || args.load_address == 0
    then (1, args)
    else let args' = default_end args in if is_out_of_range args' then (1, args') else (0, args')

module _ (strtoull : String → ℕ) where
  -- `strtoull(optarg, NULL, 0)`, where `optarg` is no null pointer.
  unfoldable pub address_of : Option String → ℕ
  address_of none = 0
  address_of (some s) = strtoull s

  -- One round of the `switch`; `none` is `return 1`.
  unfoldable pub choose : Choice → Arguments → Option Arguments
  choose choice args =
      if choice.letter == b'r'
      then (if is_missing choice.optarg
          then none
          else some (record args { input_file = choice.optarg }))
      else if choice.letter == b'l'
      then (if is_missing choice.optarg
          then none
          else some (record args { load_address = address_of choice.optarg }))
      else if choice.letter == b'e'
      then (if is_missing choice.optarg
          then none
          else some (record args { end_address = address_of choice.optarg }))
      else none

  -- The `while` loop: whether it ran to the end of the options, and what is assigned by then.
  unfoldable pub choose_all : List Choice → Arguments → Bool × Arguments
  choose_all [] args = (true, args)
  choose_all (choice ∷ choices) args = elim (choose choice args) [
    | none ↦ (false, args)
    | some args' ↦ choose_all choices args'
  ]

  unfoldable pub parse_arguments : List Choice → Arguments → ℕ × Arguments
  parse_arguments choices args =
      let (finished, args') = choose_all choices args in
      if finished then check_arguments args' else (1, args')
