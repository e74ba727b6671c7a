-- ===== src/Memory/Valid.antt =====
-- Reads and writes of the address space keep every field within its width.
use native.Mathlib.Nat.{pow-suc}
use riscv_simulator.Prelude.{ℕ, zero, suc, ◌^◌, ◌<◌, ◌/◌, Bool, true, false, Option, none, some}
use riscv_simulator.Prelude.{arith, if◌then◌else◌, sext8-lt, sext16-lt, sub64, u8, update}
use riscv_simulator.State.{Cpu}
use riscv_simulator.State.Valid.{
  Below, CpuIsValid, update-Below, if-CpuIsValid, memory-IsValid, plic-IsValid, uart-IsValid,
}
use riscv_simulator.Clint.Valid.{clint_read-lt, clint_write-IsValid}
use riscv_simulator.Plic.Valid.{plic_read-IsValid, plic_write-IsValid}
use riscv_simulator.Uart.Valid.{uart_read-IsValid, uart_write-IsValid}
use riscv_simulator.Memory.{
  Device, clint_device, plic_device, uart_device, device_read, device_write, load_bytes,
  store_bytes, load_inst, ram_read, ram_write, memory_base_addr, memory_read, memory_write,
  find_region, mmio_regions,
}

pub load_bytes-lt : (m : ℕ → ℕ) (a n : ℕ) → Below (2 ^ 8) m → load_bytes m a n < 256 ^ n
unfolding load_bytes
load_bytes-lt m a zero h = omega arith
load_bytes-lt m a (suc n) h = omega (arith, pow-suc 256 n, h a, load_bytes-lt m (suc a) n h)

pub store_bytes-Below :
    (m : ℕ → ℕ) (a n value : ℕ) → Below (2 ^ 8) m → Below (2 ^ 8) (store_bytes m a n value)
unfolding store_bytes
store_bytes-Below m a zero value h = h
store_bytes-Below m a (suc n) value h =
    store_bytes-Below (update m a (u8 value)) (suc a) n (value / 256)
      (update-Below a (u8 value) h (omega arith))

-- A value read and the processor behind the read.
pub record ReadIsValid (r : ℕ × Cpu) : Type 0 where
  pub value_lt : r.0 < 2 ^ 64
  pub cpu_valid : CpuIsValid r.1

read : {v : ℕ} {c : Cpu} → v < 2 ^ 64 → CpuIsValid c → ReadIsValid (v, c)
read h valid = assumption

if-ReadIsValid :
    (b : Bool) {p q : ℕ × Cpu} → ReadIsValid p → ReadIsValid q → ReadIsValid (if b then p else q)
if-ReadIsValid true p q = p
if-ReadIsValid false p q = q

module _ {c : Cpu} (valid : CpuIsValid c) where
  pub load_inst-lt : (address : ℕ) → load_inst c address < 2 ^ 32
  unfolding load_inst
  load_inst-lt address =
      ground (arith, load_bytes-lt c.memory (sub64 address memory_base_addr) 4 valid.memory_lt)

  ram_read-lt : (address size : ℕ) (s : Bool) → ram_read c address size s < 2 ^ 64
  unfolding ram_read
  ram_read-lt address size s =
      let bytes =
        λ (n : ℕ). load_bytes-lt c.memory (sub64 address memory_base_addr) n valid.memory_lt in
      ground (
        arith,
        bytes 1,
        bytes 2,
        bytes 4,
        bytes 8,
        sext8-lt (load_bytes c.memory (sub64 address memory_base_addr) 1),
        sext16-lt (load_bytes c.memory (sub64 address memory_base_addr) 2),
      )

  ram_write-IsValid : (address value size : ℕ) → CpuIsValid (ram_write c address value size)
  unfolding ram_write
  ram_write-IsValid address value size =
      search (if-CpuIsValid, memory-IsValid, store_bytes-Below, valid.memory_lt) depth 8

  device_read-IsValid : (d : Device) (address size : ℕ) → ReadIsValid (device_read d c address size)
  unfolding device_read
  device_read-IsValid clint_device address size =
      read (clint_read-lt address size valid.clint_valid) valid
  device_read-IsValid plic_device address size =
      let r = plic_read-IsValid valid.plic_valid address size in
      read (omega (arith, r.value_lt)) (plic-IsValid valid r.plic_valid)
  device_read-IsValid uart_device address size =
      let r = uart_read-IsValid valid.uart_valid address size in
      read r.value_lt (uart-IsValid valid r.uart_valid)

  device_write-IsValid :
      (d : Device) (address value size : ℕ)
      → value < 2 ^ 64
      → CpuIsValid (device_write d c address value size)
  unfolding device_write
  device_write-IsValid clint_device address value size h =
      clint_write-IsValid address value size valid h
  device_write-IsValid plic_device address value size h =
      plic-IsValid valid (plic_write-IsValid valid.plic_valid address value size)
  device_write-IsValid uart_device address value size h =
      uart-IsValid valid (uart_write-IsValid address value size valid.uart_valid)

  region_read-IsValid :
      (o : Option Device) (address size : ℕ)
      → ReadIsValid (elim o [ some d ↦ device_read d c address size | none ↦ (0, c) ])
  region_read-IsValid (some d) address size = device_read-IsValid d address size
  region_read-IsValid none address size = read (omega arith) valid

  region_write-IsValid :
      (o : Option Device) (address value size : ℕ)
      → value < 2 ^ 64
      → CpuIsValid (elim o [ some d ↦ device_write d c address value size | none ↦ c ])
  region_write-IsValid (some d) address value size h = device_write-IsValid d address value size h
  region_write-IsValid none address value size h = valid

  pub memory_read-IsValid :
      (address size : ℕ) (s : Bool) → ReadIsValid (memory_read c address size s)
  unfolding memory_read
  memory_read-IsValid address size s =
      if-ReadIsValid _ (read (ram_read-lt address size s) valid)
        (region_read-IsValid (find_region mmio_regions address) address size)

  pub memory_write-IsValid :
      (address value size : ℕ) → value < 2 ^ 64 → CpuIsValid (memory_write c address value size)
  unfolding memory_write
  memory_write-IsValid address value size h =
      if-CpuIsValid _ (ram_write-IsValid address value size)
        (region_write-IsValid (find_region mmio_regions address) address value size h)
