-- ===== src/State/Valid.antt =====
-- The width of every field of the state: what its C type can hold. The bounds are what makes the
-- wrap-around of the model complete, since no C variable can hold more.
use riscv_simulator.Prelude.{ℕ, ◌^◌, ◌<◌, Bool, true, false, if◌then◌else◌, update, arith}
use riscv_simulator.State.{Clint, Plic, Uart, Cpu, set_register, set_fregister, set_csr}

abbrev pub Below : ℕ → (ℕ → ℕ) → Type 0
Below bound f = (i : ℕ) → f i < bound

pub record ClintIsValid (c : Clint) : Type 0 where
  pub msip_lt : Below (2 ^ 64) c.msip
  pub mtimecmp_lt : Below (2 ^ 64) c.mtimecmp
  pub mtime_lt : c.mtime < 2 ^ 64

pub record PlicIsValid (p : Plic) : Type 0 where
  pub priority_lt : Below (2 ^ 32) p.priority
  pub pending_lt : Below (2 ^ 32) p.pending
  pub threshold_lt : Below (2 ^ 32) p.threshold
  pub enable_lt : (hart : ℕ) → Below (2 ^ 32) (p.enable hart)
  pub claim_lt : Below (2 ^ 32) p.claim_complete

pub record UartIsValid (u : Uart) : Type 0 where
  pub thr_lt : u.thr < 2 ^ 8
  pub rbr_lt : u.rbr < 2 ^ 8
  pub ier_lt : u.ier < 2 ^ 8
  pub iir_lt : u.iir < 2 ^ 8
  pub fcr_lt : u.fcr < 2 ^ 8
  pub lcr_lt : u.lcr < 2 ^ 8
  pub mcr_lt : u.mcr < 2 ^ 8
  pub lsr_lt : u.lsr < 2 ^ 8
  pub msr_lt : u.msr < 2 ^ 8
  pub scr_lt : u.scr < 2 ^ 8
  pub dll_lt : u.dll < 2 ^ 16
  pub dlm_lt : u.dlm < 2 ^ 16
  pub fifo_lt : Below (2 ^ 8) u.fifo
  pub head_lt : u.fifo_head < 2 ^ 8
  pub tail_lt : u.fifo_tail < 2 ^ 8
  pub count_lt : u.fifo_count < 2 ^ 8

-- The privilege is one of the four codes, and the priority one of those that csr.h defines.
pub record CpuIsValid (c : Cpu) : Type 0 where
  pub registers_lt : Below (2 ^ 64) c.registers
  pub fregisters_lt : Below (2 ^ 64) c.fregisters
  pub csr_lt : Below (2 ^ 64) c.csr
  pub pc_lt : c.pc < 2 ^ 64
  pub priv_lt : c.priv < 4
  pub reserved_lt : c.reserved_address < 2 ^ 64
  pub memory_lt : Below (2 ^ 8) c.memory
  pub clint_valid : ClintIsValid c.clint
  pub plic_valid : PlicIsValid c.plic
  pub uart_valid : UartIsValid c.uart
  pub priority_lt : c.current_priority < 4

pub update-Below : {b : ℕ} {f : ℕ → ℕ} (i v : ℕ) → Below b f → v < b → Below b (update f i v)
update-Below i v h p j = ground (arith, h j)

-- Both branches valid, the choice is valid.
pub if-CpuIsValid :
    (b : Bool) {x y : Cpu} → CpuIsValid x → CpuIsValid y → CpuIsValid (if b then x else y)
if-CpuIsValid true p q = p
if-CpuIsValid false p q = q

-- A result that comes with a processor.
pub record ResultIsValid {A : Type 0} (r : A × Cpu) : Type 0 where
  pub cpu_valid : CpuIsValid r.1

pub result : {A : Type 0} {a : A} {c : Cpu} → CpuIsValid c → ResultIsValid (a, c)
result valid = record { cpu_valid = valid }

pub if-ResultIsValid :
    {A : Type 0} (b : Bool) {p q : A × Cpu}
    → ResultIsValid p
    → ResultIsValid q
    → ResultIsValid (if b then p else q)
if-ResultIsValid true p q = p
if-ResultIsValid false p q = q

module _ {c : Cpu} where
  -- One store each.
  pub set_register-IsValid :
      {v : ℕ} (rd : ℕ) → CpuIsValid c → v < 2 ^ 64 → CpuIsValid (set_register c rd v)
  unfolding set_register
  set_register-IsValid {v} rd valid h = assumption (update-Below rd v valid.registers_lt h)

  pub set_fregister-IsValid :
      {v : ℕ} (rd : ℕ) → CpuIsValid c → v < 2 ^ 64 → CpuIsValid (set_fregister c rd v)
  unfolding set_fregister
  set_fregister-IsValid {v} rd valid h = assumption (update-Below rd v valid.fregisters_lt h)

  pub set_csr-IsValid : {v : ℕ} (i : ℕ) → CpuIsValid c → v < 2 ^ 64 → CpuIsValid (set_csr c i v)
  unfolding set_csr
  set_csr-IsValid {v} i valid h = assumption (update-Below i v valid.csr_lt h)

  pub pc-IsValid : {v : ℕ} → CpuIsValid c → v < 2 ^ 64 → CpuIsValid (record c { pc = v })
  pc-IsValid valid h = assumption

  pub priv-IsValid : {v : ℕ} → CpuIsValid c → v < 4 → CpuIsValid (record c { priv = v })
  priv-IsValid valid h = assumption

  pub pc_updated-IsValid : {b : Bool} → CpuIsValid c → CpuIsValid (record c { pc_updated = b })
  pc_updated-IsValid valid = assumption

  pub trap_occurred-IsValid :
      {b : Bool} → CpuIsValid c → CpuIsValid (record c { trap_occurred = b })
  trap_occurred-IsValid valid = assumption

  pub reserved-IsValid :
      {v : ℕ} → CpuIsValid c → v < 2 ^ 64 → CpuIsValid (record c { reserved_address = v })
  reserved-IsValid valid h = assumption

  pub current_priority-IsValid :
      {v : ℕ} → CpuIsValid c → v < 4 → CpuIsValid (record c { current_priority = v })
  current_priority-IsValid valid h = assumption

  pub memory-IsValid :
      {m : ℕ → ℕ} → CpuIsValid c → Below (2 ^ 8) m → CpuIsValid (record c { memory = m })
  memory-IsValid valid h = assumption

  pub clint-IsValid :
      {x : Clint} → CpuIsValid c → ClintIsValid x → CpuIsValid (record c { clint = x })
  clint-IsValid valid h = assumption

  pub plic-IsValid : {x : Plic} → CpuIsValid c → PlicIsValid x → CpuIsValid (record c { plic = x })
  plic-IsValid valid h = assumption

  pub uart-IsValid : {x : Uart} → CpuIsValid c → UartIsValid x → CpuIsValid (record c { uart = x })
  uart-IsValid valid h = assumption

  -- One read each.
  pub registers-lt : (i : ℕ) → CpuIsValid c → c.registers i < 2 ^ 64
  registers-lt i valid = valid.registers_lt i

  pub fregisters-lt : (i : ℕ) → CpuIsValid c → c.fregisters i < 2 ^ 64
  fregisters-lt i valid = valid.fregisters_lt i

  pub csr-lt : (i : ℕ) → CpuIsValid c → c.csr i < 2 ^ 64
  csr-lt i valid = valid.csr_lt i

pub ruleset valid_rules = (
  if-CpuIsValid, set_register-IsValid, set_fregister-IsValid, set_csr-IsValid, registers-lt,
  fregisters-lt, csr-lt,
)
