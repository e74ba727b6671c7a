-- ===== src/Inst/Atomic.antt =====
-- src/a_extension.c: load-reserved, store-conditional and the read-modify-write operations.
pub mod Reservation
pub mod Valid
use riscv_simulator.Prelude.{ℕ, Bool, true, false, ◌+◌, bit_and, bit_or, bit_xor, ltb, ◌==◌, ◌&&◌}
use riscv_simulator.Prelude.{if◌then◌else◌, u64, slt64}
use riscv_simulator.Defs.{
  funct3_lr, funct3_sc, funct7_amoswap, funct7_amoadd, funct7_amoxor, funct7_amoand, funct7_amoor,
  funct7_amomin, funct7_amomax, funct7_amominu, funct7_amomaxu,
}
use riscv_simulator.CsrDefs.{cause_illegal_instruction}
use riscv_simulator.State.{Cpu, set_register}
use riscv_simulator.Memory.{memory_read, memory_write}
use riscv_simulator.Exception.{raise_exception}
use riscv_simulator.Inst.Decode.{rd_of, funct3_of, rs1_of, rs2_of, funct7_of}

unfoldable pub execute_lr_w : Cpu → ℕ → ℕ → Cpu
execute_lr_w cpu rd rs1 =
    let address = cpu.registers rs1 in
    let (value, cpu') = memory_read cpu address 8 false in
    record (set_register cpu' rd value) { reserved_address = address }

unfoldable pub execute_sc_w : Cpu → ℕ → ℕ → ℕ → Cpu
execute_sc_w cpu rd rs1 rs2 =
    let address = cpu.registers rs1 in
    let value = cpu.registers rs2 in
    if cpu.reserved_address == address
    then set_register (record (memory_write cpu address value 8) { reserved_address = 0 }) rd 0
    else set_register cpu rd 1

-- The nine operations have one shape: read, combine, write back, and the old value to rd.
unfoldable pub execute_amo : (ℕ → ℕ → ℕ) → Bool → Cpu → ℕ → ℕ → ℕ → Cpu
execute_amo op is_signed cpu rd rs1 rs2 =
    let address = cpu.registers rs1 in
    let src_value = cpu.registers rs2 in
    let (mem_value, cpu') = memory_read cpu address 8 is_signed in
    set_register (memory_write cpu' address (op src_value mem_value) 8) rd mem_value

-- The results, from the register's value and the memory's.
unfoldable pub amoswap : ℕ → ℕ → ℕ
amoswap src mem = src

unfoldable pub amoadd : ℕ → ℕ → ℕ
amoadd src mem = u64 (mem + src)

unfoldable pub amoxor : ℕ → ℕ → ℕ
amoxor src mem = bit_xor mem src

unfoldable pub amoand : ℕ → ℕ → ℕ
amoand src mem = bit_and mem src

unfoldable pub amoor : ℕ → ℕ → ℕ
amoor src mem = bit_or mem src

unfoldable pub amomin : ℕ → ℕ → ℕ
amomin src mem = if slt64 src mem then src else mem

unfoldable pub amomax : ℕ → ℕ → ℕ
amomax src mem = if slt64 mem src then src else mem

unfoldable pub amominu : ℕ → ℕ → ℕ
amominu src mem = if ltb src mem then src else mem

unfoldable pub amomaxu : ℕ → ℕ → ℕ
amomaxu src mem = if ltb mem src then src else mem

unfoldable pub atomic : Cpu → ℕ → ℕ → ℕ → ℕ → ℕ → Cpu
atomic cpu funct3 funct7 rd rs1 rs2 =
    if funct3 == funct3_lr && funct7 == 0x0
    then execute_lr_w cpu rd rs1
    else if funct3 == funct3_sc && funct7 == 0x0
    then execute_sc_w cpu rd rs1 rs2
    else if funct7 == funct7_amoswap
    then execute_amo amoswap false cpu rd rs1 rs2
    else if funct7 == funct7_amoadd
    then execute_amo amoadd false cpu rd rs1 rs2
    else if funct7 == funct7_amoxor
    then execute_amo amoxor false cpu rd rs1 rs2
    else if funct7 == funct7_amoand
    then execute_amo amoand false cpu rd rs1 rs2
    else if funct7 == funct7_amoor
    then execute_amo amoor false cpu rd rs1 rs2
    else if funct7 == funct7_amomin
    then execute_amo amomin true cpu rd rs1 rs2
    else if funct7 == funct7_amomax
    then execute_amo amomax true cpu rd rs1 rs2
    else if funct7 == funct7_amominu
    then execute_amo amominu false cpu rd rs1 rs2
    else if funct7 == funct7_amomaxu
    then execute_amo amomaxu false cpu rd rs1 rs2
    else raise_exception cpu cause_illegal_instruction

unfoldable pub execute_atomic_instruction : Cpu → ℕ → Cpu
execute_atomic_instruction cpu instruction =
    atomic cpu (funct3_of instruction) (funct7_of instruction) (rd_of instruction)
      (rs1_of instruction) (rs2_of instruction)
