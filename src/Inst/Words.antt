-- ===== src/Inst/Words.antt =====
-- src/i_64_inst.c: the operations on the low 32 bits of the registers.
pub mod Valid
use riscv_simulator.Prelude.{ℕ, ◌+◌, ◌-◌, ◌*◌, ◌/◌, ◌%◌, ◌^◌, bit_and, ◌==◌, ◌&&◌, if◌then◌else◌}
use riscv_simulator.Prelude.{u32, shl32, sra32, sext32, signed32, pattern32, quot, rem, ◌>>>◌}
use riscv_simulator.CsrDefs.{cause_illegal_instruction}
use riscv_simulator.State.{Cpu, set_register}
use riscv_simulator.Exception.{raise_exception}
use riscv_simulator.Inst.Decode.{rd_of, funct3_of, rs1_of, rs2_of, funct7_of, imm_i}

-- `registers[index] & 0xFFFFFFFF`
unfoldable pub low_word : Cpu → ℕ → ℕ
low_word cpu index = bit_and (cpu.registers index) 0xFFFFFFFF

-- `cpu->registers[rd] = (int64_t) result` for an `int32_t result`.
unfoldable pub set_word : Cpu → ℕ → ℕ → Cpu
set_word cpu rd result = set_register cpu rd (sext32 result)

-- The arithmetic of the handlers on two 32-bit patterns. Signed overflow wraps.
unfoldable pub addw : ℕ → ℕ → ℕ
addw x y = u32 (x + y)

unfoldable pub subw : ℕ → ℕ → ℕ
subw x y = u32 (x + 2 ^ 32 - y)

unfoldable pub mulw : ℕ → ℕ → ℕ
mulw x y = u32 (x * y)

-- INT32_MIN and -1, as patterns. The code compares an `int32_t` with the unsigned 0x80000000.
abbrev pub int32_min : ℕ
int32_min = 0x80000000

abbrev pub minus_one32 : ℕ
minus_one32 = 2 ^ 32 - 1

-- What `execute_divw` and the three after it store, at 64 bits. The two unsigned ones convert a
-- `uint32_t`, which fills with zeros.
unfoldable pub divw : ℕ → ℕ → ℕ
divw x y =
    if y == 0
    then 2 ^ 64 - 1
    else if x == int32_min && y == minus_one32
    then sext32 x
    else sext32 (pattern32 (quot (signed32 x) (signed32 y)))

unfoldable pub divuw : ℕ → ℕ → ℕ
divuw x y = if y == 0 then 0xFFFFFFFF else x / y

unfoldable pub remw : ℕ → ℕ → ℕ
remw x y =
    if y == 0
    then sext32 x
    else if x == int32_min && y == minus_one32
    then 0
    else sext32 (pattern32 (rem (signed32 x) (signed32 y)))

unfoldable pub remuw : ℕ → ℕ → ℕ
remuw x y = if y == 0 then x else x % y

-- `execute_addiw`, `execute_slliw`, `execute_srliw` and `execute_sraiw`.
unfoldable pub execute_addiw : Cpu → ℕ → Cpu
execute_addiw cpu instruction =
    set_word cpu (rd_of instruction) (addw (low_word cpu (rs1_of instruction)) (imm_i instruction))

-- `(instruction >> 20) & 0x1F`
unfoldable pub shamt_of : ℕ → ℕ
shamt_of instruction = bit_and (instruction >>> 20) 0x1F

unfoldable pub execute_slliw : Cpu → ℕ → Cpu
execute_slliw cpu instruction =
    set_word cpu (rd_of instruction)
      (shl32 (low_word cpu (rs1_of instruction)) (shamt_of instruction))

unfoldable pub execute_srliw : Cpu → ℕ → Cpu
execute_srliw cpu instruction =
    set_word cpu (rd_of instruction) (low_word cpu (rs1_of instruction) >>> shamt_of instruction)

unfoldable pub execute_sraiw : Cpu → ℕ → Cpu
execute_sraiw cpu instruction =
    set_word cpu (rd_of instruction)
      (sra32 (low_word cpu (rs1_of instruction)) (shamt_of instruction))

unfoldable pub execute_i_32_type_instruction : Cpu → ℕ → Cpu
execute_i_32_type_instruction cpu instruction =
    let funct3 = funct3_of instruction in
    if funct3 == 0x0
    then execute_addiw cpu instruction
    else if funct3 == 0x1
    then execute_slliw cpu instruction
    else if funct3 == 0x5
    then (if instruction >>> 25 == 0x00
        then execute_srliw cpu instruction
        else if instruction >>> 25 == 0x20
        then execute_sraiw cpu instruction
        else cpu)
    else raise_exception cpu cause_illegal_instruction

-- `execute_addw`, `execute_subw`, `execute_mulw`: an `int32_t` result of two low words.
unfoldable pub word_op : (ℕ → ℕ → ℕ) → Cpu → ℕ → Cpu
word_op op cpu instruction =
    set_word cpu (rd_of instruction)
      (op (low_word cpu (rs1_of instruction)) (low_word cpu (rs2_of instruction)))

-- `execute_divw`, `execute_divuw`, `execute_remw`, `execute_remuw`: a result of 64 bits.
unfoldable pub wide_op : (ℕ → ℕ → ℕ) → Cpu → ℕ → Cpu
wide_op op cpu instruction =
    set_register cpu (rd_of instruction)
      (op (low_word cpu (rs1_of instruction)) (low_word cpu (rs2_of instruction)))

-- `execute_sllw`, `execute_srlw`, `execute_sraw`: the amount is the low five bits of rs2.
unfoldable pub shift_op : (ℕ → ℕ → ℕ) → Cpu → ℕ → Cpu
shift_op op cpu instruction =
    set_word cpu (rd_of instruction)
      (op (low_word cpu (rs1_of instruction)) (bit_and (cpu.registers (rs2_of instruction)) 0x1F))

unfoldable pub execute_r_32_type_instruction : Cpu → ℕ → Cpu
execute_r_32_type_instruction cpu instruction =
    let funct7 = funct7_of instruction in
    let funct3 = funct3_of instruction in
    if funct7 == 0x1
    then (if funct3 == 0x0
        then word_op mulw cpu instruction
        else if funct3 == 0x4
        then wide_op divw cpu instruction
        else if funct3 == 0x5
        then wide_op divuw cpu instruction
        else if funct3 == 0x6
        then wide_op remw cpu instruction
        else if funct3 == 0x7
        then wide_op remuw cpu instruction
        else raise_exception cpu cause_illegal_instruction)
    else if funct3 == 0x0
    then (if instruction >>> 25 == 0x00
        then word_op addw cpu instruction
        else if instruction >>> 25 == 0x20
        then word_op subw cpu instruction
        else cpu)
    else if funct3 == 0x1
    then shift_op shl32 cpu instruction
    else if funct3 == 0x5
    then (if instruction >>> 25 == 0x00
        then shift_op ◌>>>◌ cpu instruction
        else if instruction >>> 25 == 0x20
        then shift_op sra32 cpu instruction
        else cpu)
    else raise_exception cpu cause_illegal_instruction
