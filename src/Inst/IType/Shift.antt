-- ===== src/Inst/IType/Shift.antt =====
-- The right shifts by an immediate.
use riscv_simulator.Prelude.{ℕ, ◌≡◌, arith, ◌/◌, ◌%◌, ◌^◌, bit, bit_and-single, bit_and-mask}
use riscv_simulator.State.{Cpu, set_register}
use riscv_simulator.Inst.IType.{i_type}

logical :
    (c : Cpu) (rd rs1 imm : ℕ)
    → bit imm 9 ≡ 0
    → i_type c rd 0x5 rs1 imm ≡ set_register c rd (c.registers rs1 / 2 ^ (imm % 64))
unfolding i_type
logical c rd rs1 imm h = rw (bit_and-mask 6 imm) (ground (arith, bit_and-single 9 imm))

ignored : (c : Cpu) (rd rs1 imm : ℕ) → bit imm 9 ≡ 1 → i_type c rd 0x5 rs1 imm ≡ c
unfolding i_type
ignored c rd rs1 imm h = ground (arith, bit_and-single 9 imm)

-- The right shifts by an immediate, function code 5: with bit 9 of the immediate clear the shift is
-- logical, by the six low bits; with bit 9 set nothing happens. Bit 10, which the ISA sets for SRAI,
-- makes no difference.
pub i_type-shift :
    (c : Cpu) (rd rs1 imm : ℕ)
    → ((bit imm 9 ≡ 0)
        → i_type c rd 0x5 rs1 imm ≡ set_register c rd (c.registers rs1 / 2 ^ (imm % 64)))
      × ((bit imm 9 ≡ 1) → i_type c rd 0x5 rs1 imm ≡ c)
i_type-shift c rd rs1 imm = (logical c rd rs1 imm, ignored c rd rs1 imm)
