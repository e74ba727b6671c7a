-- ===== src/State.antt =====
-- The structures of include/cpu.h, memory.h, mmu.h, clint.h, plic.h and uart.h.
-- A C array is a function from its index. The pointers of `CPU` to the memory and to the devices are
-- fields here: main.c hands the global CLINT, PLIC and UART to `cpu_init`, so that `cpu->clint` and
-- `get_clint()` are one object, and likewise for the others.
pub mod Valid
use riscv_simulator.Prelude.{ℕ, Bool, update}

pub record Clint : Type 0 where
  pub msip : ℕ → ℕ
  pub mtimecmp : ℕ → ℕ
  pub mtime : ℕ

pub record Plic : Type 0 where
  pub priority : ℕ → ℕ
  pub pending : ℕ → ℕ
  pub threshold : ℕ → ℕ
  pub enable : ℕ → ℕ → ℕ
  pub claim_complete : ℕ → ℕ

pub record Uart : Type 0 where
  pub thr : ℕ
  pub rbr : ℕ
  pub ier : ℕ
  pub iir : ℕ
  pub fcr : ℕ
  pub lcr : ℕ
  pub mcr : ℕ
  pub lsr : ℕ
  pub msr : ℕ
  pub scr : ℕ
  pub dll : ℕ
  pub dlm : ℕ
  pub fifo : ℕ → ℕ
  pub fifo_head : ℕ
  pub fifo_tail : ℕ
  pub fifo_count : ℕ

pub record TlbEntry : Type 0 where
  pub virtual_address : ℕ
  pub physical_address : ℕ
  pub asid : ℕ
  pub valid : ℕ

pub record Mmu : Type 0 where
  pub tlb : ℕ → TlbEntry

pub record Cpu : Type 0 where
  pub registers : ℕ → ℕ
  pub fregisters : ℕ → ℕ
  pub csr : ℕ → ℕ
  pub pc : ℕ
  pub priv : ℕ
  pub pc_updated : Bool
  pub reserved_address : ℕ
  pub memory : ℕ → ℕ
  pub mmu : Mmu
  pub trap_occurred : Bool
  pub interrupt_pending : Bool
  pub fast_mode : Bool
  pub clint : Clint
  pub plic : Plic
  pub uart : Uart
  pub current_priority : ℕ

-- `cpu->registers[rd] = value`, `cpu->fregisters[rd] = value` and `cpu->csr[index] = value`.
unfoldable pub set_register : Cpu → ℕ → ℕ → Cpu
set_register cpu rd value = record cpu { registers = update cpu.registers rd value }

unfoldable pub set_fregister : Cpu → ℕ → ℕ → Cpu
set_fregister cpu rd value = record cpu { fregisters = update cpu.fregisters rd value }

unfoldable pub set_csr : Cpu → ℕ → ℕ → Cpu
set_csr cpu index value = record cpu { csr = update cpu.csr index value }
