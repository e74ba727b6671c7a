-- ===== src/Inst/Load/Valid.antt =====
-- Loads keep every field within its width.
use riscv_simulator.Prelude.{
  ℕ, ◌^◌, ◌<◌, Bool, arith, sext8-lt, sext16-lt, sext32-lt, u8, u16, u32, u64,
}
use riscv_simulator.Prelude.{sext8, sext16, sext32}
use riscv_simulator.State.{Cpu}
use riscv_simulator.State.Valid.{CpuIsValid, if-CpuIsValid, set_register-IsValid}
use riscv_simulator.Exception.Valid.{illegal-IsValid}
use riscv_simulator.Memory.Valid.{memory_read-IsValid}
use riscv_simulator.Inst.Load.{load_into, load, execute_load_instruction}

module _ {c : Cpu} (valid : CpuIsValid c) where
  load_into-IsValid :
      (rd : ℕ) (cast : ℕ → ℕ) (address size : ℕ) (s : Bool)
      → ((v : ℕ) → cast v < 2 ^ 64)
      → CpuIsValid (load_into c rd cast address size s)
  unfolding load_into
  load_into-IsValid rd cast address size s h =
      set_register-IsValid rd (memory_read-IsValid valid address size s).cpu_valid (h _)

  load-IsValid : (funct3 rd address : ℕ) → CpuIsValid (load c funct3 rd address)
  unfolding load
  load-IsValid funct3 rd address =
      search (if-CpuIsValid, illegal-IsValid, load_into-IsValid, lb, lh, lw, ld, lbu, lhu) depth 10
    where
      lb : (v : ℕ) → sext8 (u8 v) < 2 ^ 64
      lb v = sext8-lt (u8 v) (omega arith)

      lh : (v : ℕ) → sext16 (u16 v) < 2 ^ 64
      lh v = sext16-lt (u16 v) (omega arith)

      lw : (v : ℕ) → sext32 (u32 v) < 2 ^ 64
      lw v = sext32-lt (u32 v) (omega arith)

      ld : (v : ℕ) → u64 v < 2 ^ 64
      ld v = omega arith

      lbu : (v : ℕ) → u8 v < 2 ^ 64
      lbu v = omega arith

      lhu : (v : ℕ) → u16 v < 2 ^ 64
      lhu v = omega arith

  pub execute_load_instruction-IsValid :
      (instruction : ℕ) → CpuIsValid (execute_load_instruction c instruction)
  unfolding execute_load_instruction
  execute_load_instruction-IsValid instruction = load-IsValid _ _ _
