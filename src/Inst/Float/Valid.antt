-- ===== src/Inst/Float/Valid.antt =====
-- The handlers of src/f_extension.c keep every field within its width, whatever the host computes.
use riscv_simulator.Prelude.{ℕ, ◌^◌, ◌<◌, arith, u32, bit_and-lt, bit_or-lt, bit_xor-lt}
use riscv_simulator.Prelude.{not32}
use riscv_simulator.State.{Cpu}
use riscv_simulator.State.Valid.{CpuIsValid, if-CpuIsValid, set_fregister-IsValid}
use riscv_simulator.Exception.Valid.{illegal-IsValid}
use riscv_simulator.Inst.Float.{
  Fpu, write_float, float_op, execute_fsqrt_s, fsgnj, fsgnjn, fsgnjx, sign_op, float,
  execute_f_extension_instruction,
}

abbrev Low32 : (ℕ → ℕ → ℕ) → Type 0
Low32 op = (x y : ℕ) → x < 2 ^ 32 → y < 2 ^ 32 → op x y < 2 ^ 32

fsgnj-Low32 : Low32 fsgnj
unfolding fsgnj
fsgnj-Low32 x y h g = bit_or-lt 32 _ _ (bit_and-lt 32 x _ h) (bit_and-lt 32 y _ g)

fsgnjn-Low32 : Low32 fsgnjn
unfolding fsgnjn
fsgnjn-Low32 x y h g =
    bit_or-lt 32 _ _ (bit_and-lt 32 x _ h) (bit_and-lt 32 (not32 y) _ (omega arith))

fsgnjx-Low32 : Low32 fsgnjx
unfolding fsgnjx
fsgnjx-Low32 x y h g = bit_xor-lt 32 x _ h (bit_and-lt 32 y _ g)

module _ {c : Cpu} (valid : CpuIsValid c) where
  sign_op-IsValid :
      (op : ℕ → ℕ → ℕ) (rd rs1 rs2 : ℕ) → Low32 op → CpuIsValid (sign_op op c rd rs1 rs2)
  unfolding sign_op
  sign_op-IsValid op rd rs1 rs2 low = set_fregister-IsValid rd valid (
      omega
        (arith, low (u32 (c.fregisters rs1)) (u32 (c.fregisters rs2)) (omega arith) (omega arith)))

  write_float-IsValid : (fpu : Fpu) (rd result : ℕ) → CpuIsValid (write_float fpu c rd result)
  unfolding write_float
  write_float-IsValid fpu rd result = set_fregister-IsValid rd valid (omega arith)

  float-IsValid :
      (fpu : Fpu) (funct7 funct3 rd rs1 rs2 : ℕ) → CpuIsValid (float fpu c funct7 funct3 rd rs1 rs2)
  unfolding float float_op execute_fsqrt_s
  float-IsValid fpu funct7 funct3 rd rs1 rs2 =
      search
        (
          if-CpuIsValid, illegal-IsValid, write_float-IsValid, sign_op-IsValid, fsgnj-Low32,
          fsgnjn-Low32, fsgnjx-Low32,
        )
        depth 14 fits 4000

  pub execute_f_extension_instruction-IsValid :
      (fpu : Fpu) (instruction : ℕ) → CpuIsValid (execute_f_extension_instruction fpu c instruction)
  unfolding execute_f_extension_instruction
  execute_f_extension_instruction-IsValid fpu instruction = float-IsValid fpu _ _ _ _ _
