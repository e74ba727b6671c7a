-- ===== src/Csr/Valid.antt =====
-- The system instructions keep every field within its width.
use riscv_simulator.Prelude.{ℕ, ◌^◌, ◌<◌, ◌/◌, ◌==◌, ◌>>>◌, arith, bit_and, not64}
use riscv_simulator.Prelude.{bit_and-mask, bit_and-shift, if-lt, and64-lt, or64-lt}
use riscv_simulator.CsrDefs.{
  csr_mstatus, csr_sstatus, cause_breakpoint, mstatus_mie, mstatus_mpie, mstatus_mpp, sstatus_spie,
  sstatus_spp, opcode_ecall, opcode_ebreak, opcode_sret, opcode_mret, opcode_uret, opcode_wfi,
}
use riscv_simulator.State.{Cpu}
use riscv_simulator.State.Valid.{
  CpuIsValid, if-CpuIsValid, set_csr-IsValid, set_register-IsValid, priv-IsValid,
}
use riscv_simulator.Exception.Valid.{raise_exception-IsValid, illegal-IsValid}
use riscv_simulator.Defs.{rs1_field}
use riscv_simulator.Inst.MExtension.Valid.{KeepsWords}
use riscv_simulator.Csr.{
  read_csr, write_csr, exchange, next_write, next_set, next_clear, next_clear_imm, csr_register,
  csr_immediate, mret_mstatus, execute_mret, sret_sstatus, execute_sret, execute_uret, ecall_cause,
  execute_ecall, csr_instruction, privileged_instruction, execute_system_instruction,
}

next_write-KeepsWords : KeepsWords next_write
unfolding next_write
next_write-KeepsWords x y h g = g

next_set-KeepsWords : KeepsWords next_set
unfolding next_set
next_set-KeepsWords x y h g = or64-lt x y h g

next_clear-KeepsWords : KeepsWords next_clear
unfolding next_clear
next_clear-KeepsWords x y h g = and64-lt x _ h

next_clear_imm-KeepsWords : KeepsWords next_clear_imm
unfolding next_clear_imm
next_clear_imm-KeepsWords x y h g = and64-lt x _ h

mret_mstatus-lt : (m : ℕ) → m < 2 ^ 64 → mret_mstatus m < 2 ^ 64
unfolding mret_mstatus
mret_mstatus-lt m h =
    let m1 = and64-lt m (not64 mstatus_mpp) h in
    or64-lt _ mstatus_mpie
      (if-lt _ (or64-lt _ mstatus_mie m1 (omega arith)) (and64-lt _ (not64 mstatus_mie) m1))
      (omega arith)

sret_sstatus-lt : (s : ℕ) → s < 2 ^ 64 → sret_sstatus s < 2 ^ 64
unfolding sret_sstatus
sret_sstatus-lt s h =
    or64-lt _ sstatus_spie
      (and64-lt _ (not64 sstatus_spp)
        (if-lt _ (or64-lt s (2 ^ 1) h (omega arith)) (and64-lt s (not64 (2 ^ 1)) h)))
      (omega arith)

ecall_cause-lt : (priv : ℕ) → ecall_cause priv < 2 ^ 64
unfolding ecall_cause
ecall_cause-lt priv = ground arith

-- The immediate is five bits wide.
pub rs1_field-lt : (instruction : ℕ) → rs1_field instruction < 2 ^ 5
unfolding rs1_field
rs1_field-lt instruction =
    omega (arith, bit_and-shift 15 instruction 0x1F, bit_and-mask 5 (instruction / 2 ^ 15))

module _ {c : Cpu} (valid : CpuIsValid c) where
  read_csr-lt : (csr : ℕ) → read_csr c csr < 2 ^ 64
  unfolding read_csr
  read_csr-lt csr = ground (arith, valid.csr_lt csr)

  write_csr-IsValid : {v : ℕ} (csr : ℕ) → v < 2 ^ 64 → CpuIsValid (write_csr c csr v)
  unfolding write_csr
  write_csr-IsValid csr h = if-CpuIsValid _ (set_csr-IsValid csr valid h) valid

  exchange-IsValid :
      (next : ℕ → ℕ → ℕ) (rd csr operand : ℕ)
      → KeepsWords next
      → operand < 2 ^ 64
      → CpuIsValid (exchange next c rd csr operand)
  unfolding exchange
  exchange-IsValid next rd csr operand keeps h =
      set_register-IsValid rd (write_csr-IsValid csr (keeps _ _ (read_csr-lt csr) h))
        (read_csr-lt csr)

  csr_register-IsValid :
      (next : ℕ → ℕ → ℕ) (instruction : ℕ)
      → KeepsWords next
      → CpuIsValid (csr_register next c instruction)
  unfolding csr_register
  csr_register-IsValid next instruction keeps =
      exchange-IsValid next _ _ _ keeps (valid.registers_lt _)

  csr_immediate-IsValid :
      (next : ℕ → ℕ → ℕ) (instruction : ℕ)
      → KeepsWords next
      → CpuIsValid (csr_immediate next c instruction)
  unfolding csr_immediate
  csr_immediate-IsValid next instruction keeps =
      exchange-IsValid next _ _ _ keeps (omega (arith, rs1_field-lt instruction))

  csr_instruction-IsValid :
      (funct3 instruction : ℕ) → CpuIsValid (csr_instruction c funct3 instruction)
  unfolding csr_instruction
  csr_instruction-IsValid funct3 instruction =
      search
        (
          if-CpuIsValid, illegal-IsValid, csr_register-IsValid, csr_immediate-IsValid,
          next_write-KeepsWords, next_set-KeepsWords, next_clear-KeepsWords,
          next_clear_imm-KeepsWords,
        )
        depth 10

module _ {c : Cpu} (valid : CpuIsValid c) where
  execute_mret-IsValid : CpuIsValid (execute_mret c)
  unfolding execute_mret
  execute_mret-IsValid =
      let m = read_csr c csr_mstatus in
      let c1 =
        priv-IsValid {v = bit_and (m >>> 11) 0x3} valid
          (omega (arith, bit_and-mask 2 (m >>> 11))) in
      let c2 =
        write_csr-IsValid c1 csr_mstatus (mret_mstatus-lt m (read_csr-lt valid csr_mstatus)) in
      search (c2.csr_lt, c2.priv_lt, zero-lt)
    where
      zero-lt : 0 < 4
      zero-lt = omega arith

  execute_sret-IsValid : CpuIsValid (execute_sret c)
  unfolding execute_sret
  execute_sret-IsValid =
      let s = read_csr c csr_sstatus in
      let c1 =
        priv-IsValid {v = bit_and (s >>> 8) 0x1} valid (omega (arith, bit_and-mask 1 (s >>> 8))) in
      let c2 =
        write_csr-IsValid c1 csr_sstatus (sret_sstatus-lt s (read_csr-lt valid csr_sstatus)) in
      search (c2.csr_lt, c2.priv_lt, zero-lt)
    where
      zero-lt : 0 < 4
      zero-lt = omega arith

  execute_uret-IsValid : CpuIsValid (execute_uret c)
  unfolding execute_uret
  execute_uret-IsValid = search (valid.csr_lt, priv-lt, zero-lt)
    where
      priv-lt : (x : ℕ) → bit_and x 0x1 < 4
      priv-lt x = omega (arith, bit_and-mask 1 x)

      zero-lt : 0 < 4
      zero-lt = omega arith

  execute_ecall-IsValid : CpuIsValid (execute_ecall c)
  unfolding execute_ecall
  execute_ecall-IsValid = raise_exception-IsValid _ valid (ecall_cause-lt c.priv)

  privileged_instruction-IsValid : (imm : ℕ) → CpuIsValid (privileged_instruction c imm)
  unfolding privileged_instruction
  privileged_instruction-IsValid imm = if-CpuIsValid (imm == opcode_ecall) execute_ecall-IsValid (
      if-CpuIsValid (imm == opcode_ebreak)
        (raise_exception-IsValid cause_breakpoint valid (omega arith))
        (if-CpuIsValid (imm == opcode_sret) execute_sret-IsValid (
          if-CpuIsValid (imm == opcode_mret) execute_mret-IsValid (
            if-CpuIsValid (imm == opcode_uret) execute_uret-IsValid
              (if-CpuIsValid (imm == opcode_wfi) valid (illegal-IsValid valid))))))

  pub execute_system_instruction-IsValid :
      (instruction : ℕ) → CpuIsValid (execute_system_instruction c instruction)
  unfolding execute_system_instruction
  execute_system_instruction-IsValid instruction =
      if-CpuIsValid _
        (if-CpuIsValid _ (illegal-IsValid valid) (csr_instruction-IsValid valid _ instruction))
        (privileged_instruction-IsValid _)
