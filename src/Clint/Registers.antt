-- ===== src/Clint/Registers.antt =====
-- The register map of the CLINT.
use riscv_simulator.Prelude.{
  ℕ, ◌≡◌, ◌⊎◌, inl, inr, arith, ◌+◌, ◌*◌, ◌<◌, ◌≤◌, bit, bit-bit_or, bit-clear, bit-two_pow, bit-lt,
  ap, ◌∙◌, if◌then◌else◌, ◌!=◌, ◌==◌,
}
use riscv_simulator.CsrDefs.{csr_mip, mip_msip}
use riscv_simulator.State.{Cpu, set_csr}
use riscv_simulator.Clint.{clint_read, clint_write, clint_base_addr, mip_after_msip}

-- The three groups of registers of eight harts, by their offset.
abbrev pub IsRegister : ℕ → Type 0
IsRegister offset =
    (offset < 8 * 8) ⊎ (((0x4000 ≤ offset) × (offset < 0x4000 + 8 * 8)) ⊎ (offset ≡ 0xBFF8))

-- A read of any register of the CLINT returns what a write of that register left there.
pub clint_read-clint_write :
    (c : Cpu) (offset value size : ℕ)
    → IsRegister offset
    → clint_read
        (clint_write c (clint_base_addr + offset) value size).clint
        (clint_base_addr + offset)
        size
      ≡ value
unfolding clint_read clint_write set_csr
clint_read-clint_write c offset value size (inl h) = ground arith
clint_read-clint_write c offset value size (inr (inl h)) = ground (arith, h.0, h.1)
clint_read-clint_write c offset value size (inr (inr h)) = ground arith

bit-mip_after_msip :
    (mip value i : ℕ)
    → i < 64
    → bit (mip_after_msip mip value) i
      ≡ (if i == 3 then (if value != 0 then 1 else 0) else bit mip i)
unfolding mip_after_msip
bit-mip_after_msip mip value i h = ground (
  arith,
  bit-bit_or i mip mip_msip,
  bit-two_pow 3 i,
  bit-clear 64 3 mip i (omega arith) h,
  bit-lt mip i,
)

write-mip :
    (c : Cpu) (offset value size : ℕ)
    → offset < 8 * 8
    → (clint_write c (clint_base_addr + offset) value size).csr csr_mip
      ≡ mip_after_msip (c.csr csr_mip) value
unfolding clint_write set_csr
write-mip c offset value size h = ground arith

-- A write of a software-interrupt register sets MSIP (bit 3 of `mip`) if the value is not 0, clears it
-- if it is, and leaves the other bits of `mip` as they are.
pub clint_write-mip :
    (c : Cpu) (offset value size i : ℕ)
    → offset < 8 * 8
    → i < 64
    → bit ((clint_write c (clint_base_addr + offset) value size).csr csr_mip) i
      ≡ (if i == 3 then (if value != 0 then 1 else 0) else bit (c.csr csr_mip) i)
clint_write-mip c offset value size i h g =
    ap (λ (w : ℕ). bit w i) (write-mip c offset value size h)
    ∙ bit-mip_after_msip (c.csr csr_mip) value i g
