-- ===== src/Memory.antt =====
-- src/memory.c and include/memory.h: the bytes of main memory, and the regions of the address space
-- that belong to a device. `memory->data` is a function from the offset; an offset past
-- `memory_size`, which C leaves undefined, names a byte of its own.
pub mod Valid
pub mod RoundTrip
use riscv_simulator.Prelude.{ℕ, zero, suc, Bool, ◌+◌, ◌*◌, ◌/◌, ltb, leb, ◌==◌, ◌!=◌}
use riscv_simulator.Prelude.{◌&&◌, ◌||◌, if◌then◌else◌, update, bit_and, List, [], ◌∷◌}
use riscv_simulator.Prelude.{Option, none, some, u8, sub64, sext8, sext16}
use riscv_simulator.State.{Cpu}
use riscv_simulator.Clint.{clint_base_addr, clint_size, clint_read, clint_write}
use riscv_simulator.Plic.{plic_base_addr, plic_size, plic_read, plic_write}
use riscv_simulator.Uart.{uart_base_addr, uart_read, uart_write}

abbrev pub memory_base_addr : ℕ
memory_base_addr = 0x80000000

abbrev pub memory_size : ℕ
memory_size = 128 * 1024 * 1024

abbrev pub memory_end_addr : ℕ
memory_end_addr = memory_base_addr + memory_size

-- The device that a region's function pointers belong to.
pub data Device : Type 0 where
  clint_device plic_device uart_device : Device

pub record MmioRegion : Type 0 where
  pub base_addr : ℕ
  pub size : ℕ
  pub device : Device

abbrev pub mmio_regions : List MmioRegion
mmio_regions =
    record { base_addr = clint_base_addr; size = clint_size; device = clint_device }
    ∷ record { base_addr = plic_base_addr; size = plic_size; device = plic_device }
    ∷ record { base_addr = uart_base_addr; size = 8; device = uart_device }
    ∷ []

-- The loop over the regions: the first that holds the address.
unfoldable pub find_region : List MmioRegion → ℕ → Option Device
find_region [] address = none
find_region (region ∷ regions) address =
    let later = find_region regions address in
    if leb region.base_addr address && ltb address (region.base_addr + region.size)
    then some region.device
    else later

-- `region->read(address, size)` and `region->write(address, value, size)`.
unfoldable pub device_read : Device → Cpu → ℕ → ℕ → ℕ × Cpu
device_read clint_device cpu address size = (clint_read cpu.clint address size, cpu)
device_read plic_device cpu address size =
    let (value, plic') = plic_read cpu.plic address size in (value, record cpu { plic = plic' })
device_read uart_device cpu address size =
    let (value, uart') = uart_read cpu.uart address size in (value, record cpu { uart = uart' })

unfoldable pub device_write : Device → Cpu → ℕ → ℕ → ℕ → Cpu
device_write clint_device cpu address value size = clint_write cpu address value size
device_write plic_device cpu address value size = record cpu {
  plic = plic_write cpu.plic address value size;
}
device_write uart_device cpu address value size = record cpu {
  uart = uart_write cpu.uart address value size;
}

-- The `n` bytes from offset `a` on, lowest first, as one number; and the store of such a number.
unfoldable pub load_bytes : (ℕ → ℕ) → ℕ → ℕ → ℕ
load_bytes memory a zero = 0
load_bytes memory a (suc n) = memory a + 256 * load_bytes memory (suc a) n

unfoldable pub store_bytes : (ℕ → ℕ) → ℕ → ℕ → ℕ → ℕ → ℕ
store_bytes memory a zero value = memory
store_bytes memory a (suc n) value =
    store_bytes (update memory a (u8 value)) (suc a) n (value / 256)

unfoldable pub load_inst : Cpu → ℕ → ℕ
unfolding load_bytes
load_inst cpu address =
    if leb memory_end_addr address || ltb address memory_base_addr
    then 0
    else load_bytes cpu.memory (sub64 address memory_base_addr) 4

-- The `switch` of `memory_read`. At size 4 the two branches of `?:` are an `int32_t` and a
-- `uint32_t`, whose common type is unsigned, so that `is_signed` has no effect; at size 8 likewise.
unfoldable pub ram_read : Cpu → ℕ → ℕ → Bool → ℕ
unfolding load_bytes
ram_read cpu address size is_signed =
    let a = sub64 address memory_base_addr in
    if size == 1
    then (if is_signed then sext8 (load_bytes cpu.memory a 1) else load_bytes cpu.memory a 1)
    else if size == 2
    then (if is_signed then sext16 (load_bytes cpu.memory a 2) else load_bytes cpu.memory a 2)
    else if size == 4
    then load_bytes cpu.memory a 4
    else if size == 8
    then load_bytes cpu.memory a 8
    else 0

unfoldable pub ram_write : Cpu → ℕ → ℕ → ℕ → Cpu
unfolding store_bytes
ram_write cpu address value size =
    let a = sub64 address memory_base_addr in
    if size == 1
    then record cpu { memory = store_bytes cpu.memory a 1 value }
    else if size == 2
    then record cpu { memory = store_bytes cpu.memory a 2 value }
    else if size == 4
    then record cpu { memory = store_bytes cpu.memory a 4 value }
    else if size == 8
    then record cpu { memory = store_bytes cpu.memory a 8 value }
    else cpu

-- `address & 0x80000000`, the test that tells main memory from devices.
unfoldable pub is_ram : ℕ → Bool
is_ram address = bit_and address 0x80000000 != 0

unfoldable pub memory_read : Cpu → ℕ → ℕ → Bool → ℕ × Cpu
memory_read cpu address size is_signed =
    if is_ram address
    then (ram_read cpu address size is_signed, cpu)
    else elim (find_region mmio_regions address) [
      | some device ↦ device_read device cpu address size
      | none ↦ (0, cpu)
    ]

unfoldable pub memory_write : Cpu → ℕ → ℕ → ℕ → Cpu
memory_write cpu address value size =
    if is_ram address
    then ram_write cpu address value size
    else elim (find_region mmio_regions address) [
      | some device ↦ device_write device cpu address value size
      | none ↦ cpu
    ]
