-- ===== src/Memory/RoundTrip.antt =====
-- What a load finds behind a store.
use riscv_simulator.Prelude.{
  ℕ, zero, suc, ◌≡◌, ◌+◌, ◌*◌, ◌^◌, ◌%◌, ◌/◌, ◌<◌, ◌≤◌, ◌⊎◌, inl, inr, arith, update, u8, ◌∙◌, ap,
}
use native.Mathlib.Nat.{pow-suc, mul_comm, mul_assoc, mul-add, div-add-mod, div-div-eq-div-mul}
use riscv_simulator.Prelude.{refl}
use riscv_simulator.Prelude.{Bool, true, false, sub64, bit_and-single, bit-eq-div, ◌-◌}
use riscv_simulator.State.{Cpu}
use riscv_simulator.Memory.{
  load_bytes, store_bytes, is_ram, ram_read, ram_write, memory_read, memory_write, memory_base_addr,
  memory_end_addr,
}

-- Bytes before the address or behind the last one keep their value.
pub store_bytes-outside :
    (memory : ℕ → ℕ) (a n value i : ℕ)
    → (i < a) ⊎ (a + n ≤ i)
    → store_bytes memory a n value i ≡ memory i
unfolding store_bytes
store_bytes-outside memory a zero value i h = refl
store_bytes-outside memory a (suc n) value i h =
    ground (arith, store_bytes-outside (update memory a (u8 value)) (suc a) n (value / 256) i)

-- A remainder by a product, in two digits.
mod-mul : (b c v : ℕ) → v % (b * c) ≡ v % b + b * (v / b % c)
mod-mul b c v = omega (
  arith,
  div-add-mod v (b * c),
  div-add-mod v b,
  ap (λ (t : ℕ). b * t) (div-add-mod (v / b) c),
  mul-add b (c * (v / b / c)) (v / b % c),
  mul_assoc b c (v / b / c),
  ap (λ (t : ℕ). b * c * t) (div-div-eq-div-mul v b c),
)

pow-256 : (n v : ℕ) → v % 256 ^ suc n ≡ v % 256 + 256 * (v / 256 % 256 ^ n)
pow-256 n v =
    ap (λ (t : ℕ). v % t) (pow-suc 256 n ∙ mul_comm (256 ^ n) 256) ∙ mod-mul 256 (256 ^ n) v

load_bytes-store_bytes :
    (memory : ℕ → ℕ) (a n value : ℕ)
    → load_bytes (store_bytes memory a n value) a n ≡ value % 256 ^ n
unfolding load_bytes store_bytes
load_bytes-store_bytes memory a zero value = omega arith
load_bytes-store_bytes memory a (suc n) value =
    let m = update memory a (u8 value) in
    ground (
      arith,
      pow-256 n value,
      store_bytes-outside m (suc a) n (value / 256) a,
      load_bytes-store_bytes m (suc a) n (value / 256),
    )

-- The four sizes of an access, and an access that lies within main memory.
abbrev pub IsSize : ℕ → Type 0
IsSize size = (size ≡ 1) ⊎ ((size ≡ 2) ⊎ ((size ≡ 4) ⊎ (size ≡ 8)))

pub record IsAccess (address size : ℕ) : Type 0 where
  pub is_size : IsSize size
  pub base_le : memory_base_addr ≤ address
  pub end_le : address + size ≤ memory_end_addr

pub IsAccess-is_ram : (address size : ℕ) → IsAccess address size → is_ram address ≡ true
unfolding is_ram
IsAccess-is_ram address size access =
    ground (arith, bit_and-single 31 address, bit-eq-div 31 address, access.base_le, access.end_le)

ram_write-bytes :
    (c : Cpu) (address value size : ℕ)
    → IsSize size
    → (ram_write c address value size).memory
      ≡ store_bytes c.memory (sub64 address memory_base_addr) size value
unfolding ram_write
ram_write-bytes c address value size (inl e) = rw e refl
ram_write-bytes c address value size (inr (inl e)) = rw e refl
ram_write-bytes c address value size (inr (inr (inl e))) = rw e refl
ram_write-bytes c address value size (inr (inr (inr e))) = rw e refl

ram_read-bytes :
    (c : Cpu) (address size : ℕ)
    → IsSize size
    → ram_read c address size false ≡ load_bytes c.memory (sub64 address memory_base_addr) size
unfolding ram_read
ram_read-bytes c address size (inl e) = rw e refl
ram_read-bytes c address size (inr (inl e)) = rw e refl
ram_read-bytes c address size (inr (inr (inl e))) = rw e refl
ram_read-bytes c address size (inr (inr (inr e))) = rw e refl

pub write-ram :
    (c : Cpu) (address value size : ℕ)
    → is_ram address ≡ true
    → memory_write c address value size ≡ ram_write c address value size
unfolding memory_write
write-ram c address value size h = rw h refl

pub read-ram :
    (c : Cpu) (address size : ℕ) (is_signed : Bool)
    → is_ram address ≡ true
    → memory_read c address size is_signed ≡ (ram_read c address size is_signed, c)
unfolding memory_read
read-ram c address size is_signed h = rw h refl

-- A load of the bytes of any of the four sizes, anywhere in main memory, returns what a store of that
-- size left there: the value, cut to that many bytes.
pub memory_read-memory_write :
    (c : Cpu) (address value size : ℕ)
    → IsAccess address size
    → (memory_read (memory_write c address value size) address size false).0 ≡ value % 256 ^ size
memory_read-memory_write c address value size access =
    let ram = IsAccess-is_ram address size access in
    let a = sub64 address memory_base_addr in
    let c' = ram_write c address value size in
    rw (write-ram c address value size ram, read-ram c' address size false ram)
      (ram_read-bytes c' address size access.is_size
        ∙ ap (λ (m : ℕ → ℕ). load_bytes m a size)
            (ram_write-bytes c address value size access.is_size)
        ∙ load_bytes-store_bytes c.memory a size value)

-- A store within main memory changes none of the bytes before its address and none behind its last
-- byte.
pub memory_write-outside :
    (c : Cpu) (address value size i : ℕ)
    → IsAccess address size
    → (i < address - memory_base_addr) ⊎ (address - memory_base_addr + size ≤ i)
    → (memory_write c address value size).memory i ≡ c.memory i
memory_write-outside c address value size i access o =
    let a = sub64 address memory_base_addr in
    ap (λ (d : Cpu). d.memory i)
      (write-ram c address value size (IsAccess-is_ram address size access))
    ∙ ap (λ (m : ℕ → ℕ). m i) (ram_write-bytes c address value size access.is_size)
    ∙ store_bytes-outside c.memory a size value i (ground (arith, access.base_le, access.end_le))
