-- ===== src/Plic/Registers.antt =====
-- The register map of the PLIC: what src/plic.c stores in its registers is read back from them.
use riscv_simulator.Prelude.{
  ℕ, ◌≡◌, ◌⊎◌, inl, inr, arith, ◌+◌, ◌*◌, ◌-◌, ◌/◌, ◌^◌, ◌%◌, ◌<◌, ◌≤◌, if◌then◌else◌, ◌==◌, u32,
  ltb, ◌∙◌, sub64, update,
}
use riscv_simulator.State.{Plic}
use riscv_simulator.Plic.{plic_read, plic_write, plic_base_addr}

abbrev pub IsPriority : ℕ → Type 0
IsPriority offset = (offset < 128 * 4) × (offset % 4 ≡ 0)

abbrev pub IsEnable : ℕ → Type 0
IsEnable offset = (0x2000 ≤ offset) × (offset < 0x2000 + 8 * 16) × (offset % 4 ≡ 0)

abbrev pub IsThreshold : ℕ → Type 0
IsThreshold offset = (0x200000 ≤ offset) × (offset < 0x200000 + 8 * 0x1000) × (offset % 0x1000 ≡ 0)

-- A priority, a word of enable bits inside the array, or a threshold, by its offset.
abbrev pub IsWritable : ℕ → Type 0
IsWritable offset = IsPriority offset ⊎ (IsEnable offset ⊎ IsThreshold offset)

offset_lem :
    (offset : ℕ) → offset < 2 ^ 32 → u32 (sub64 (plic_base_addr + offset) plic_base_addr) ≡ offset
offset_lem offset h = ground arith

module _ (p : Plic) (offset size : ℕ) where
  read-priority :
      IsPriority offset → (plic_read p (plic_base_addr + offset) size).0 ≡ p.priority (offset / 4)
  unfolding plic_read
  read-priority h = rw (offset_lem offset (omega (arith, h.0))) (ground (arith, h.0, h.1))

  read-enable :
      IsEnable offset
      → (plic_read p (plic_base_addr + offset) size).0
        ≡ p.enable ((offset - 0x2000) / 16) ((offset - 0x2000) % 16 / 4)
  unfolding plic_read
  read-enable h = rw (offset_lem offset (omega (arith, h.1))) (ground (arith, h.0, h.1))

  read-threshold :
      IsThreshold offset
      → (plic_read p (plic_base_addr + offset) size).0 ≡ p.threshold ((offset - 0x200000) / 0x1000)
  unfolding plic_read
  read-threshold h = rw (offset_lem offset (omega (arith, h.1))) (ground (arith, h.0, h.1))

  write-priority :
      (value : ℕ)
      → IsPriority offset
      → plic_write p (plic_base_addr + offset) value size
        ≡ record p { priority = update p.priority (offset / 4) (u32 value) }
  unfolding plic_write
  write-priority value h = rw (offset_lem offset (omega (arith, h.0))) (ground (arith, h.0, h.1))

  write-enable :
      (value : ℕ)
      → IsEnable offset
      → plic_write p (plic_base_addr + offset) value size ≡ record p {
        enable =
            update p.enable
              ((offset - 0x2000) / 16)
              (update (p.enable ((offset - 0x2000) / 16)) ((offset - 0x2000) % 16 / 4) (u32 value));
      }
  unfolding plic_write
  write-enable value h = rw (offset_lem offset (omega (arith, h.1))) (ground (arith, h.0, h.1))

  write-threshold :
      (value : ℕ)
      → IsThreshold offset
      → plic_write p (plic_base_addr + offset) value size
        ≡ record p { threshold = update p.threshold ((offset - 0x200000) / 0x1000) (u32 value) }
  unfolding plic_write
  write-threshold value h = rw (offset_lem offset (omega (arith, h.1))) (ground (arith, h.0, h.1))

-- What a register holds.
unfoldable register : Plic → ℕ → ℕ
register p offset =
    if ltb offset 0x2000
    then p.priority (offset / 4)
    else if ltb offset 0x200000
    then p.enable ((offset - 0x2000) / 16) ((offset - 0x2000) % 16 / 4)
    else p.threshold ((offset - 0x200000) / 0x1000)

read-register :
    (p : Plic) (offset size : ℕ)
    → IsWritable offset
    → (plic_read p (plic_base_addr + offset) size).0 ≡ register p offset
unfolding register
read-register p offset size (inl h) = read-priority p offset size h ∙ ground (arith, h.0)
read-register p offset size (inr (inl h)) = read-enable p offset size h ∙ ground (arith, h.0, h.1)
read-register p offset size (inr (inr h)) = read-threshold p offset size h ∙ ground (arith, h.0)

register-write :
    (p : Plic) (a b value size : ℕ)
    → IsWritable a
    → IsWritable b
    → register (plic_write p (plic_base_addr + a) value size) b
      ≡ (if b == a then u32 value else register p b)
unfolding register
register-write p a b value size (inl h) other =
    rw (write-priority p a size value h) (ground (arith, h.0, h.1, other))
register-write p a b value size (inr (inl h)) other =
    rw (write-enable p a size value h) (ground (arith, h.0, h.1, other))
register-write p a b value size (inr (inr h)) other =
    rw (write-threshold p a size value h) (ground (arith, h.0, h.1, other))

-- Behind a write of a priority, of a word of enable bits of one of the eight harts or of a threshold, a
-- read of that register returns the low 32 bits of what was written, and a read of any other of these
-- registers returns what it did before. The enable words are those at the offsets that the code maps
-- into its array, 16 bytes a hart.
pub plic_read-plic_write :
    (p : Plic) (a b value size : ℕ)
    → IsWritable a
    → IsWritable b
    → (plic_read (plic_write p (plic_base_addr + a) value size) (plic_base_addr + b) size).0
      ≡ (if b == a then u32 value else (plic_read p (plic_base_addr + b) size).0)
plic_read-plic_write p a b value size h other =
    read-register (plic_write p (plic_base_addr + a) value size) b size other
    ∙ rw (read-register p b size other) (register-write p a b value size h other)
