-- ===== src/Examples/Listing.antt =====
-- The theorems on the disassembler, the command line and the start-up, at concrete inputs.
use Prim.Native.String.{String}
use riscv_simulator.Prelude.{
  ℕ, ◌+◌, false, ◌≡◌, refl, sym, inl, ◌==◌, arith, some, none, List, [], ◌∷◌, bit, bit_and, ◌||◌,
  if◌then◌else◌,
}
use riscv_simulator.Defs.{opcode, opcode_jal, opcode_branch}
use riscv_simulator.Inst.Decode.{rd_of, funct3_of, funct7_of, rs1_of, rs2_of}
use riscv_simulator.Inst.Branch.{taken}
use riscv_simulator.Clint.{timer_tick}
use riscv_simulator.State.{Cpu, set_register}
use riscv_simulator.Cpu.{before, cpu_init, cpu_execute}
use riscv_simulator.Simulator.{read_file, load_file_to_memory}
use riscv_simulator.Display.{initial_display, first_frame}
use riscv_simulator.Simulator.Machine.{Machine, view_of, shown_by}
use riscv_simulator.Simulator.Machine.Runs.{MachineIsValid, at_start, on_tick, on_first}
use riscv_simulator.Disassemble.{disassemble}
use riscv_simulator.Disassemble.Names.{init_csr_names}
use riscv_simulator.Disassemble.Formats.{IsPrintable}
use riscv_simulator.Disassemble.Printable.{disassemble-IsPrintable}
use riscv_simulator.Disassemble.Silent.{is_printed, is_shown, disassemble-is_printed}
use riscv_simulator.Disassemble.Render.{text_of, hexadecimal, decimal, digits, digit_byte}
use riscv_simulator.Disassemble.Text.{codes}
use riscv_simulator.Disassemble.Targets.{
  jal_text, branch_text, disassemble-cpu_execute_jal, disassemble-cpu_execute_branch,
}
use riscv_simulator.Helper.{
  Choice, Arguments, parse_arguments, check_arguments, default_end, choose_all, choose, address_of,
  is_missing, is_null, is_out_of_range,
}
use riscv_simulator.Main.{
  Host, File, Started, initial_arguments, thread_data, open_input, start_with, init_cpu, main,
}
use riscv_simulator.Main.Valid.{HostIsValid, main-MachineIsValid}
use riscv_simulator.Examples.States.{host, blank}

-- `csrrw x3, x4, mstatus` in a buffer of 100 bytes.
disassemble-IsPrintable_example :
    IsPrintable 100
      (bit_and 0x300211f3 0x7F == opcode_jal || bit_and 0x300211f3 0x7F == opcode_branch)
      (disassemble (init_csr_names (λ i. none)) 0x80000000 0x300211f3 false 100)
disassemble-IsPrintable_example =
    disassemble-IsPrintable (λ i. none) 0x80000000 0x300211f3 100 false (omega arith)

-- `srli x1, x1, 32`, a shift of RV64, is not printed.
disassemble-is_printed_example :
    is_printed (disassemble (λ i. none) 0x80000000 0x0200d093 false 100) ≡ is_shown 0x13 5 1
unfolding opcode funct3_of funct7_of
disassemble-is_printed_example = disassemble-is_printed (λ i. none) 0x80000000 0x0200d093 100

long_shift : is_shown 0x13 5 1 ≡ false
unfolding is_shown
long_shift = refl

-- `jal x1, -16`
disassemble-cpu_execute_jal_example :
    text_of (disassemble (λ i. none) 0x80000000 0xff1ff0ef false 100)
    ≡ some (jal_text (rd_of 0xff1ff0ef) (cpu_execute host blank 0xff1ff0ef).pc)
unfolding opcode bit
disassemble-cpu_execute_jal_example =
    disassemble-cpu_execute_jal host (λ i. none) blank 0xff1ff0ef 100 refl (inl refl)

-- `%x` and `%d` of an address in the memory: the second is negative.
low_hexadecimal : hexadecimal 0x180000ff0 ≡ codes "80000ff0"
unfolding hexadecimal digits digit_byte
low_hexadecimal = refl

negative_decimal : decimal 0x80000ff0 ≡ codes "-2147479568"
unfolding decimal digits digit_byte
negative_decimal = refl

-- `bne x1, x2, 12`, where x1 holds 1 and x2 holds 0.
abbrev uneven : Cpu
uneven = record blank { registers = λ i. if i == 1 then 1 else 0 }

disassemble-cpu_execute_branch_example :
    text_of (disassemble (λ i. none) 0x80000000 0x209663 false 100)
    ≡ some (
        branch_text
          (funct3_of 0x209663)
          (rs1_of 0x209663)
          (rs2_of 0x209663)
          (cpu_execute host uneven 0x209663).pc)
unfolding opcode bit taken before set_register funct3_of rs1_of rs2_of
disassemble-cpu_execute_branch_example =
    disassemble-cpu_execute_branch host (λ i. none) uneven 0x209663 100 refl (inl refl) refl
      (λ e. absurd (cc e))

-- `--rom kernel --load_address 0x80000000`
abbrev read_number : String → ℕ
read_number s = 0x80000000

abbrev options : List Choice
options =
    record { letter = b'r'; optarg = some "kernel" }
    ∷ record { letter = b'l'; optarg = some "0x80000000" }
    ∷ []

abbrev nothing_set : Arguments
nothing_set = record { input_file = none; load_address = 0; end_address = 0x88000000 }

-- An address below the memory is accepted.
low_address : (parse_arguments (λ s. 0x1000) options nothing_set).0 ≡ 0
unfolding parse_arguments choose_all choose address_of check_arguments is_missing is_null
    default_end is_out_of_range
low_address = refl

-- A start with a file of four bytes.
abbrev kernel : File
kernel = record { bytes = λ i. 0x13; size = 4; bytes_read = 4 }

abbrev surroundings : Host
surroundings = record {
  strtoull = read_number;
  open_file = λ name. some kernel;
  first_memory = λ i. 0;
  reset_memory = λ i. 0;
}

abbrev booted : Started
booted =
    thread_data surroundings
      record { input_file = some "kernel"; load_address = 0x80000000; end_address = 0x88000000 }
      kernel (read_file (λ i. 0x13) 0 4 0 (λ i. 0))

-- Byte `i` of a file of eight bytes is `i + 1`.
abbrev image : ℕ → ℕ
image = read_file (λ i. i + 1) 0 8 0x1000 (λ i. 0)

same_file : (file : File) → some kernel ≡ some file → kernel ≡ file
same_file file e = cc e

surroundings-IsValid : HostIsValid surroundings
surroundings-IsValid = record {
  file_lt = λ name file e. rw (sym (same_file file e)) (λ i. omega arith);
  first_lt = λ i. omega arith;
  reset_lt = λ i. omega arith;
}

boots : main surroundings options ≡ some booted
unfolding main parse_arguments choose_all choose address_of check_arguments is_missing is_null
    default_end is_out_of_range initial_arguments open_input start_with load_file_to_memory init_cpu
    cpu_init
boots = refl

-- The timer ticks, and the display draws its first frame and another one.
abbrev powered : Machine
powered = record { keyboard = booted.keyboard; display = initial_display }

abbrev ticked : Machine
ticked = record powered {
  keyboard = record booted.keyboard { cpu = timer_tick booted.keyboard.cpu };
}

abbrev drawn : Machine
drawn = shown_by ticked (
  (first_frame ticked.display (view_of booted.csr_names (λ n. n) ticked)).0,
  (first_frame ticked.display (view_of booted.csr_names (λ n. n) ticked)).1,
)

main-MachineIsValid_example : MachineIsValid booted.csr_names drawn
main-MachineIsValid_example =
    main-MachineIsValid host surroundings options booted drawn surroundings-IsValid boots
      (on_first ticked (λ n. n) (on_tick powered at_start))
