-- ===== src/Disassemble/Fields.antt =====
-- The register numbers of an instruction have five bits: they stand in the table of src/disassemble.c.
use riscv_simulator.Prelude.{ℕ, ◌<◌, arith, ◌>>>◌, bit_and-mask}
use riscv_simulator.Inst.Decode.{rd_of, rs1_of, rs2_of}

pub rd_of-lt : (instruction : ℕ) → rd_of instruction < 32
unfolding rd_of
rd_of-lt instruction = omega (arith, bit_and-mask 5 (instruction >>> 7))

pub rs1_of-lt : (instruction : ℕ) → rs1_of instruction < 32
unfolding rs1_of
rs1_of-lt instruction = omega (arith, bit_and-mask 5 (instruction >>> 15))

pub rs2_of-lt : (instruction : ℕ) → rs2_of instruction < 32
unfolding rs2_of
rs2_of-lt instruction = omega (arith, bit_and-mask 5 (instruction >>> 20))
