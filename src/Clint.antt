-- ===== src/Clint.antt =====
-- src/clint.c: the core-local interruptor. A write of `msip` also sets or clears a bit of the
-- processor's `mip`, so `clint_write` acts on the processor; `clint_read` changes nothing.
pub mod Registers
pub mod Valid
use riscv_simulator.Prelude.{ℕ, ◌+◌, ◌*◌, ◌/◌, bit_and, bit_or, ltb, leb, ◌==◌, ◌!=◌, ◌&&◌}
use riscv_simulator.Prelude.{if◌then◌else◌, update, sub64, u64, not64}
use riscv_simulator.Defs.{max_harts}
use riscv_simulator.CsrDefs.{csr_mip, csr_mhartid, mip_msip, mip_mtip}
use riscv_simulator.State.{Clint, Cpu, set_csr}

abbrev pub clint_base_addr : ℕ
clint_base_addr = 0x2000000

abbrev pub clint_size : ℕ
clint_size = 0x10000

abbrev pub timer_interval_ms : ℕ
timer_interval_ms = 10

-- `sizeof(clint->msip)`, and that of `mtimecmp`: eight bytes for each hart.
abbrev pub hart_array_size : ℕ
hart_array_size = max_harts * 8

unfoldable pub clint_init : Clint → Clint
clint_init clint = record {
  msip = λ _. 0;
  mtimecmp = λ i. if ltb i max_harts then 0xFFFFFFFFFFFFFFFF else 0;
  mtime = 0;
}

unfoldable pub clint_read : Clint → ℕ → ℕ → ℕ
clint_read clint addr size =
    let offset = sub64 addr clint_base_addr in
    if ltb offset hart_array_size
    then clint.msip (offset / 8)
    else if leb 0x4000 offset && ltb offset (0x4000 + hart_array_size)
    then clint.mtimecmp (sub64 offset 0x4000 / 8)
    else if offset == 0xBFF8
    then clint.mtime
    else 0

-- `cpu->csr[CSR_MIP]` follows whether a software interrupt is requested.
unfoldable pub mip_after_msip : ℕ → ℕ → ℕ
mip_after_msip mip value = if value != 0 then bit_or mip mip_msip else bit_and mip (not64 mip_msip)

unfoldable pub clint_write : Cpu → ℕ → ℕ → ℕ → Cpu
clint_write cpu addr value size =
    let clint = cpu.clint in
    let offset = sub64 addr clint_base_addr in
    if ltb offset hart_array_size
    then set_csr
        (record cpu { clint = record clint { msip = update clint.msip (offset / 8) value } })
        csr_mip (mip_after_msip (cpu.csr csr_mip) value)
    else if leb 0x4000 offset && ltb offset (0x4000 + hart_array_size)
    then record cpu {
      clint = record clint { mtimecmp = update clint.mtimecmp (sub64 offset 0x4000 / 8) value };
    }
    else if offset == 0xBFF8
    then record cpu { clint = record clint { mtime = value } }
    else cpu

-- One round of `timer_loop`, behind its sleep.
unfoldable pub timer_tick : Cpu → Cpu
timer_tick cpu =
    let mtime = u64 (cpu.clint.mtime + timer_interval_ms * 7000) in
    let ticked = record cpu { clint = record (cpu.clint) { mtime = mtime } } in
    if leb (cpu.clint.mtimecmp (cpu.csr csr_mhartid)) mtime
    then set_csr ticked csr_mip (bit_or (cpu.csr csr_mip) mip_mtip)
    else ticked
