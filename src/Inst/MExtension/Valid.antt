-- ===== src/Inst/MExtension/Valid.antt =====
-- The handlers of src/m_extension.c keep every field within its width.
use riscv_simulator.Prelude.{ℕ, ◌^◌, ◌<◌, ◌-◌, arith, if-lt, u64-lt, div-lt, pattern64-lt}
use riscv_simulator.State.{Cpu}
use riscv_simulator.State.Valid.{CpuIsValid, if-CpuIsValid, set_register-IsValid}
use riscv_simulator.Exception.Valid.{illegal-IsValid}
use riscv_simulator.Inst.MExtension.{
  mul, mulh, mulhsu, mulhu, div, divu, rem64, remu, binary, m_extension,
  execute_m_extension_instruction,
}

-- An operation that takes words to a word.
abbrev pub KeepsWords : (ℕ → ℕ → ℕ) → Type 0
KeepsWords op = (x y : ℕ) → x < 2 ^ 64 → y < 2 ^ 64 → op x y < 2 ^ 64

mul-KeepsWords : KeepsWords mul
unfolding mul
mul-KeepsWords x y h g = pattern64-lt _

mulh-KeepsWords : KeepsWords mulh
unfolding mulh
mulh-KeepsWords x y h g = u64-lt _

mulhsu-KeepsWords : KeepsWords mulhsu
unfolding mulhsu
mulhsu-KeepsWords x y h g = u64-lt _

mulhu-KeepsWords : KeepsWords mulhu
unfolding mulhu
mulhu-KeepsWords x y h g = u64-lt _

zero-lt : 0 < 2 ^ 64
zero-lt = omega arith

all_ones-lt : 2 ^ 64 - 1 < 2 ^ 64
all_ones-lt = omega arith

div-KeepsWords : KeepsWords div
unfolding div
div-KeepsWords x y h g = search (if-lt, pattern64-lt, all_ones-lt)

divu-KeepsWords : KeepsWords divu
unfolding divu
divu-KeepsWords x y h g = search (if-lt, div-lt, all_ones-lt)

rem64-KeepsWords : KeepsWords rem64
unfolding rem64
rem64-KeepsWords x y h g = search (if-lt, pattern64-lt, zero-lt)

remu-KeepsWords : KeepsWords remu
unfolding remu
remu-KeepsWords x y h g = ground arith

module _ {c : Cpu} (valid : CpuIsValid c) where
  binary-IsValid :
      (op : ℕ → ℕ → ℕ) (rd rs1 rs2 : ℕ) → KeepsWords op → CpuIsValid (binary op c rd rs1 rs2)
  unfolding binary
  binary-IsValid op rd rs1 rs2 keeps =
      set_register-IsValid rd valid (keeps _ _ (valid.registers_lt rs1) (valid.registers_lt rs2))

  m_extension-IsValid :
      (funct7 funct3 rd rs1 rs2 : ℕ) → CpuIsValid (m_extension c funct7 funct3 rd rs1 rs2)
  unfolding m_extension
  m_extension-IsValid funct7 funct3 rd rs1 rs2 =
      search
        (
          if-CpuIsValid, illegal-IsValid, binary-IsValid, mul-KeepsWords, mulh-KeepsWords,
          mulhsu-KeepsWords, mulhu-KeepsWords, div-KeepsWords, divu-KeepsWords, rem64-KeepsWords,
          remu-KeepsWords,
        )
        depth 14

  pub execute_m_extension_instruction-IsValid :
      (instruction : ℕ) → CpuIsValid (execute_m_extension_instruction c instruction)
  unfolding execute_m_extension_instruction
  execute_m_extension_instruction-IsValid instruction = m_extension-IsValid _ _ _ _ _
