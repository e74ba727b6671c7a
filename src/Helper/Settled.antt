-- ===== src/Helper/Settled.antt =====
-- src/helper.c: what a command line that is accepted settles.
use Prim.Native.String.{String}
use riscv_simulator.Prelude.{
  ℕ, ◌≡◌, ◌≢◌, ◌≤◌, ◌<◌, refl, sym, ap, ◌∙◌, Bool, true, false, ◌==◌, ◌||◌, ◌&&◌, not, Bool-cases,
  inl, inr, if◌then◌else◌, Option, none, some, List, [], ◌∷◌, arith,
}
use riscv_simulator.Memory.{memory_end_addr}
use riscv_simulator.Helper.{
  Choice, Arguments, is_missing, is_null, address_of, choose, choose_all, default_end,
  is_out_of_range, check_arguments, parse_arguments,
}

-- What the range checks leave: nothing bounds the load address by the start of the memory.
pub record IsOrdered (args : Arguments) : Type 0 where
  pub file_set : args.input_file ≢ none
  pub load_positive : 0 < args.load_address
  pub load_lt : args.load_address < args.end_address
  pub end_le : args.end_address ≤ memory_end_addr

-- An option that the `switch` takes: one of the three letters, with an argument.
unfoldable pub is_accepted : Choice → Bool
is_accepted choice =
    (choice.letter == b'r' || choice.letter == b'l' || choice.letter == b'e')
    && not (is_missing choice.optarg)

unfoldable pub all_accepted : List Choice → Bool
all_accepted [] = true
all_accepted (choice ∷ choices) = is_accepted choice && all_accepted choices

-- The argument that a letter is given last, or else the value from before.
unfoldable pub last_of {ℓ} : {A : Type ℓ} → (Option String → A) → ℕ → List Choice → A → A
last_of read letter [] before = before
last_of read letter (choice ∷ choices) before =
    last_of read letter choices (if choice.letter == letter then read choice.optarg else before)

is_set : (o : Option String) → is_null o ≡ false → o ≢ none
unfolding is_null
is_set none h = ground arith
is_set (some s) h = cc

check_arguments-IsOrdered :
    (args : Arguments) → (check_arguments args).0 ≡ 0 → IsOrdered (check_arguments args).1
unfolding check_arguments default_end is_out_of_range
check_arguments-IsOrdered args e = record {
  file_set = ground (arith, is_set args.input_file);
  load_positive = ground arith;
  load_lt = ground arith;
  end_le = ground arith;
}

module _ (strtoull : String → ℕ) where
  -- Each setting by its own letter, whatever the order of the options.
  unfoldable pub settled : List Choice → Arguments → Arguments
  settled choices args = record {
    input_file = last_of (λ o. o) b'r' choices args.input_file;
    load_address = last_of (address_of strtoull) b'l' choices args.load_address;
    end_address = last_of (address_of strtoull) b'e' choices args.end_address;
  }

  assign : Choice → Arguments → Arguments
  assign choice args = record {
    input_file = if choice.letter == b'r' then choice.optarg else args.input_file;
    load_address =
        if choice.letter == b'l' then address_of strtoull choice.optarg else args.load_address;
    end_address =
        if choice.letter == b'e' then address_of strtoull choice.optarg else args.end_address;
  }

  choose-accepted :
      (choice : Choice) (args : Arguments)
      → is_accepted choice ≡ true
      → choose strtoull choice args ≡ some (assign choice args)
  unfolding choose assign is_accepted
  choose-accepted choice args h = ground arith

  choose-refused :
      (choice : Choice) (args : Arguments)
      → is_accepted choice ≡ false
      → choose strtoull choice args ≡ none
  unfolding choose is_accepted
  choose-refused choice args h = ground arith

  choose_all-settled :
      (choices : List Choice) (args : Arguments)
      → all_accepted choices ≡ true
      → choose_all strtoull choices args ≡ (true, settled choices args)
  unfolding choose_all all_accepted settled last_of assign
  choose_all-settled [] args h = refl
  choose_all-settled (choice ∷ choices) args h =
      rw (choose-accepted choice args (ground arith), choose_all)
        (choose_all-settled choices (assign choice args) (ground arith))

  choose_all-refused :
      (choices : List Choice) (args : Arguments)
      → all_accepted choices ≡ false
      → (choose_all strtoull choices args).0 ≡ false
  unfolding choose_all all_accepted
  choose_all-refused [] args h = ground arith
  choose_all-refused (choice ∷ choices) args h = elim (Bool-cases (is_accepted choice)) [
    | inl taken ↦
        rw (choose-accepted choice args taken, choose_all)
          (choose_all-refused choices (assign choice args) (ground arith))
    | inr refused ↦ rw (choose-refused choice args refused, choose_all) refl
  ]

  parse_arguments-accepted :
      (choices : List Choice) (args : Arguments)
      → all_accepted choices ≡ true
      → parse_arguments strtoull choices args ≡ check_arguments (settled choices args)
  unfolding parse_arguments
  parse_arguments-accepted choices args h = rw (choose_all-settled choices args h) refl

  parse_arguments-refused :
      (choices : List Choice) (args : Arguments)
      → all_accepted choices ≡ false
      → (parse_arguments strtoull choices args).0 ≡ 1
  unfolding parse_arguments
  parse_arguments-refused choices args h = rw (choose_all-refused choices args h) refl

check_arguments-default_end :
    (args : Arguments) → (check_arguments args).0 ≡ 0 → (check_arguments args).1 ≡ default_end args
unfolding check_arguments
check_arguments-default_end args h = ground arith

pub parse_arguments-IsOrdered :
    (strtoull : String → ℕ) (choices : List Choice) (args : Arguments)
    → (parse_arguments strtoull choices args).0 ≡ 0
    → IsOrdered (parse_arguments strtoull choices args).1
      × ((parse_arguments strtoull choices args).1 ≡ default_end (settled strtoull choices args))
parse_arguments-IsOrdered strtoull choices args h = elim (Bool-cases (all_accepted choices)) [
  | inl accepted ↦
      let e = parse_arguments-accepted strtoull choices args accepted in
      let ok = ap (λ (r : ℕ × Arguments). r.0) (sym e) ∙ h in
      rw e (check_arguments-IsOrdered _ ok, check_arguments-default_end _ ok)
  | inr refused ↦ absurd (omega (arith, parse_arguments-refused strtoull choices args refused, h))
]
