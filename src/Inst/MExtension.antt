-- ===== src/Inst/MExtension.antt =====
-- src/m_extension.c: multiplication and division at 64 bits.
pub mod Valid
pub mod Division
pub mod Product
use riscv_simulator.Prelude.{ℕ, ◌-◌, ◌*◌, ◌/◌, ◌%◌, ◌^◌, ◌==◌, ◌&&◌, if◌then◌else◌, u64}
use riscv_simulator.Prelude.{pos, ◌*ℤ◌, quot, rem, signed64, pattern64, pattern128, ◌>>>◌}
use riscv_simulator.Defs.{
  funct7_m, funct3_mul, funct3_mulh, funct3_mulhsu, funct3_mulhu, funct3_div, funct3_divu,
  funct3_rem, funct3_remu,
}
use riscv_simulator.CsrDefs.{cause_illegal_instruction}
use riscv_simulator.State.{Cpu, set_register}
use riscv_simulator.Exception.{raise_exception}
use riscv_simulator.Inst.Decode.{rd_of, funct3_of, rs1_of, rs2_of, funct7_of}

-- What each handler stores, from the two operands.
unfoldable pub mul : ℕ → ℕ → ℕ
mul x y = pattern64 (signed64 x *ℤ signed64 y)

unfoldable pub mulh : ℕ → ℕ → ℕ
mulh x y = u64 (pattern128 (signed64 x *ℤ signed64 y) >>> 64)

unfoldable pub mulhsu : ℕ → ℕ → ℕ
mulhsu x y = u64 (pattern128 (signed64 x *ℤ pos y) >>> 64)

unfoldable pub mulhu : ℕ → ℕ → ℕ
mulhu x y = u64 ((x * y) >>> 64)

-- INT64_MIN and -1, as patterns.
abbrev pub int64_min : ℕ
int64_min = 2 ^ 63

abbrev pub minus_one : ℕ
minus_one = 2 ^ 64 - 1

unfoldable pub div : ℕ → ℕ → ℕ
div x y =
    if y == 0
    then minus_one
    else if x == int64_min && y == minus_one
    then x
    else pattern64 (quot (signed64 x) (signed64 y))

unfoldable pub divu : ℕ → ℕ → ℕ
divu x y = if y == 0 then 2 ^ 64 - 1 else x / y

unfoldable pub rem64 : ℕ → ℕ → ℕ
rem64 x y =
    if y == 0
    then x
    else if x == int64_min && y == minus_one
    then 0
    else pattern64 (rem (signed64 x) (signed64 y))

unfoldable pub remu : ℕ → ℕ → ℕ
remu x y = if y == 0 then x else x % y

-- `execute_mul` and the seven after it, by their operation.
unfoldable pub binary : (ℕ → ℕ → ℕ) → Cpu → ℕ → ℕ → ℕ → Cpu
binary op cpu rd rs1 rs2 = set_register cpu rd (op (cpu.registers rs1) (cpu.registers rs2))

unfoldable pub m_extension : Cpu → ℕ → ℕ → ℕ → ℕ → ℕ → Cpu
m_extension cpu funct7 funct3 rd rs1 rs2 =
    if funct7 == funct7_m
    then (if funct3 == funct3_mul
        then binary mul cpu rd rs1 rs2
        else if funct3 == funct3_mulh
        then binary mulh cpu rd rs1 rs2
        else if funct3 == funct3_mulhsu
        then binary mulhsu cpu rd rs1 rs2
        else if funct3 == funct3_mulhu
        then binary mulhu cpu rd rs1 rs2
        else if funct3 == funct3_div
        then binary div cpu rd rs1 rs2
        else if funct3 == funct3_divu
        then binary divu cpu rd rs1 rs2
        else if funct3 == funct3_rem
        then binary rem64 cpu rd rs1 rs2
        else if funct3 == funct3_remu
        then binary remu cpu rd rs1 rs2
        else raise_exception cpu cause_illegal_instruction)
    else raise_exception cpu cause_illegal_instruction

unfoldable pub execute_m_extension_instruction : Cpu → ℕ → Cpu
execute_m_extension_instruction cpu instruction =
    m_extension cpu (funct7_of instruction) (funct3_of instruction) (rd_of instruction)
      (rs1_of instruction) (rs2_of instruction)
