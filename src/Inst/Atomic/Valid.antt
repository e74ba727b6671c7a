-- ===== src/Inst/Atomic/Valid.antt =====
-- Atomic operations keep every field within its width.
use riscv_simulator.Prelude.{ℕ, Bool, false, arith, if-lt, u64-lt, or64-lt, xor64-lt, and64-lt}
use riscv_simulator.State.{Cpu}
use riscv_simulator.State.Valid.{CpuIsValid, if-CpuIsValid, set_register-IsValid, reserved-IsValid}
use riscv_simulator.Exception.Valid.{illegal-IsValid}
use riscv_simulator.Memory.Valid.{memory_read-IsValid, memory_write-IsValid}
use riscv_simulator.Inst.MExtension.Valid.{KeepsWords}
use riscv_simulator.Inst.Atomic.{
  execute_lr_w, execute_sc_w, execute_amo, amoswap, amoadd, amoxor, amoand, amoor, amomin, amomax,
  amominu, amomaxu, atomic, execute_atomic_instruction,
}

amoswap-KeepsWords : KeepsWords amoswap
unfolding amoswap
amoswap-KeepsWords x y h g = h

amoadd-KeepsWords : KeepsWords amoadd
unfolding amoadd
amoadd-KeepsWords x y h g = u64-lt _

amoxor-KeepsWords : KeepsWords amoxor
unfolding amoxor
amoxor-KeepsWords x y h g = xor64-lt y x g h

amoand-KeepsWords : KeepsWords amoand
unfolding amoand
amoand-KeepsWords x y h g = and64-lt y x g

amoor-KeepsWords : KeepsWords amoor
unfolding amoor
amoor-KeepsWords x y h g = or64-lt y x g h

amomin-KeepsWords : KeepsWords amomin
unfolding amomin
amomin-KeepsWords x y h g = if-lt _ h g

amomax-KeepsWords : KeepsWords amomax
unfolding amomax
amomax-KeepsWords x y h g = if-lt _ h g

amominu-KeepsWords : KeepsWords amominu
unfolding amominu
amominu-KeepsWords x y h g = if-lt _ h g

amomaxu-KeepsWords : KeepsWords amomaxu
unfolding amomaxu
amomaxu-KeepsWords x y h g = if-lt _ h g

module _ {c : Cpu} (valid : CpuIsValid c) where
  execute_lr_w-IsValid : (rd rs1 : ℕ) → CpuIsValid (execute_lr_w c rd rs1)
  unfolding execute_lr_w
  execute_lr_w-IsValid rd rs1 =
      let r = memory_read-IsValid valid (c.registers rs1) 8 false in
      reserved-IsValid (set_register-IsValid rd r.cpu_valid r.value_lt) (valid.registers_lt rs1)

  execute_sc_w-IsValid : (rd rs1 rs2 : ℕ) → CpuIsValid (execute_sc_w c rd rs1 rs2)
  unfolding execute_sc_w
  execute_sc_w-IsValid rd rs1 rs2 =
      let written = memory_write-IsValid valid (c.registers rs1) _ 8 (valid.registers_lt rs2) in
      if-CpuIsValid _
        (set_register-IsValid rd (reserved-IsValid written (omega arith)) (omega arith))
        (set_register-IsValid rd valid (omega arith))

  execute_amo-IsValid :
      (op : ℕ → ℕ → ℕ) (s : Bool) (rd rs1 rs2 : ℕ)
      → KeepsWords op
      → CpuIsValid (execute_amo op s c rd rs1 rs2)
  unfolding execute_amo
  execute_amo-IsValid op s rd rs1 rs2 keeps =
      let r = memory_read-IsValid valid (c.registers rs1) 8 s in
      set_register-IsValid rd
        (memory_write-IsValid r.cpu_valid (c.registers rs1) _ 8
          (keeps _ _ (valid.registers_lt rs2) r.value_lt))
        r.value_lt

  atomic-IsValid : (funct3 funct7 rd rs1 rs2 : ℕ) → CpuIsValid (atomic c funct3 funct7 rd rs1 rs2)
  unfolding atomic
  atomic-IsValid funct3 funct7 rd rs1 rs2 =
      search
        (
          if-CpuIsValid, illegal-IsValid, execute_lr_w-IsValid, execute_sc_w-IsValid,
          execute_amo-IsValid, amoswap-KeepsWords, amoadd-KeepsWords, amoxor-KeepsWords,
          amoand-KeepsWords, amoor-KeepsWords, amomin-KeepsWords, amomax-KeepsWords,
          amominu-KeepsWords, amomaxu-KeepsWords,
        )
        depth 16 fits 4000

  pub execute_atomic_instruction-IsValid :
      (instruction : ℕ) → CpuIsValid (execute_atomic_instruction c instruction)
  unfolding execute_atomic_instruction
  execute_atomic_instruction-IsValid instruction = atomic-IsValid _ _ _ _ _
