-- ===== src/Plic.antt =====
-- src/plic.c: the platform-level interrupt controller. A read of a claim register claims an
-- interrupt, so a read returns the new device as well.
-- The arrays of `PLIC` are functions of any index: an index past the declared bounds, which C leaves
-- undefined, names an entry of its own.
pub mod Valid
pub mod Claim
pub mod Registers
use riscv_simulator.Prelude.{ℕ, zero, suc, Bool, true, false, ◌+◌, ◌*◌, ◌/◌, ◌%◌, bit_and}
use riscv_simulator.Prelude.{ltb, leb, ◌==◌, ◌!=◌, ◌&&◌, if◌then◌else◌, update, ◌>>>◌}
use riscv_simulator.Prelude.{u32, sub64, shl32, not32, sra32, Option, none, some}
use riscv_simulator.Defs.{max_harts}
use riscv_simulator.State.{Plic}

abbrev pub plic_base_addr : ℕ
plic_base_addr = 0x0C000000

abbrev pub plic_size : ℕ
plic_size = 0x400000

abbrev pub plic_pending_offset : ℕ
plic_pending_offset = 0x001000

abbrev pub plic_enable_base : ℕ
plic_enable_base = 0x002000

abbrev pub plic_threshold_base : ℕ
plic_threshold_base = 0x200000

abbrev pub plic_threshold_stride : ℕ
plic_threshold_stride = 0x1000

abbrev pub plic_claim_base : ℕ
plic_claim_base = 0x200004

abbrev pub plic_claim_stride : ℕ
plic_claim_stride = 0x1000

abbrev pub max_interrupts : ℕ
max_interrupts = 128

abbrev pub plic_enable : ℕ → ℕ
plic_enable hart = plic_enable_base + hart * 0x80

abbrev pub plic_threshold_offset : ℕ → ℕ
plic_threshold_offset hart = plic_threshold_base + hart * 0x1000

abbrev pub plic_claim_offset : ℕ → ℕ
plic_claim_offset hart = plic_claim_base + hart * 0x1000

-- `sizeof(plic->enable[0])`: four 32-bit words.
abbrev pub enable_row_size : ℕ
enable_row_size = 16

abbrev pub uart0_irq : ℕ
uart0_irq = 10

unfoldable pub plic_init : Plic → Plic
plic_init plic = record {
  priority = λ _. 0;
  pending = λ _. 0;
  threshold = λ _. 0;
  enable = λ _ _. 0;
  claim_complete = λ _. 0;
}

-- `words[i >> 5] & (1 << (i & 0x1F))`, as a condition.
unfoldable pub bitmap_test : (ℕ → ℕ) → ℕ → Bool
bitmap_test words i = bit_and (words (i >>> 5)) (shl32 1 (bit_and i 0x1F)) != 0

-- The three conditions under which a hart may take interrupt `i`.
unfoldable pub deliverable : Plic → ℕ → ℕ → Bool
deliverable plic hart i =
    bitmap_test plic.pending i
    && bitmap_test (plic.enable hart) i
    && ltb (plic.threshold hart) (plic.priority i)

-- The loop that `plic_claim_interrupt` and `plic_check_interrupt` share: the first index from `i` on
-- that passes, with `left` rounds to go.
unfoldable pub find_from : Plic → ℕ → ℕ → ℕ → Option ℕ
find_from plic hart zero i = none
find_from plic hart (suc left) i =
    let later = find_from plic hart left (suc i) in
    if deliverable plic hart i then some i else later

-- What the claim loop does at the index where it returns.
unfoldable pub claim_at : Plic → ℕ → ℕ → Plic
claim_at plic hart i = record plic {
  pending =
      update plic.pending (i >>> 5)
        (bit_and (plic.pending (i >>> 5)) (not32 (shl32 1 (bit_and i 0x1F))));
  claim_complete = update plic.claim_complete hart i;
}

unfoldable pub plic_claim_interrupt : Plic → ℕ → ℕ × Plic
plic_claim_interrupt plic hart = elim (find_from plic hart max_interrupts 0) [
  | some i ↦ (i, claim_at plic hart i)
  | none ↦ (0, plic)
]

-- `irq` is an `int`, given by its pattern.
unfoldable pub plic_complete_interrupt : Plic → ℕ → ℕ → Plic
unfolding sra32
plic_complete_interrupt plic hart irq =
    if bit_and (plic.enable hart (sra32 irq 5)) (shl32 1 (bit_and irq 0x1F)) != 0
    then record plic { claim_complete = update plic.claim_complete hart 0xFFFFFFFF }
    else plic

unfoldable pub plic_check_interrupt : Plic → ℕ → Bool
plic_check_interrupt plic hart = elim (find_from plic hart max_interrupts 0) [
  | some i ↦ true
  | none ↦ false
]

-- The tests of an offset against the register groups, in the order of the code.
abbrev pub in_priority : ℕ → Bool
in_priority offset = ltb offset (max_interrupts * 4)

abbrev pub in_pending : ℕ → Bool
in_pending offset =
    leb plic_pending_offset offset && ltb offset (plic_pending_offset + enable_row_size)

abbrev pub in_enable : ℕ → Bool
in_enable offset = leb (plic_enable 0) offset && ltb offset (plic_enable max_harts)

abbrev pub in_threshold : ℕ → Bool
in_threshold offset =
    offset % plic_threshold_stride == 0
    && leb (plic_threshold_offset 0) offset
    && ltb offset (plic_threshold_offset max_harts)

abbrev pub in_claim : ℕ → Bool
in_claim offset =
    offset % plic_claim_stride == 4
    && leb (plic_claim_offset 0) offset
    && ltb offset (plic_claim_offset max_harts)

unfoldable pub plic_read : Plic → ℕ → ℕ → ℕ × Plic
plic_read plic address size =
    let offset = u32 (sub64 address plic_base_addr) in
    if in_priority offset
    then (plic.priority (offset / 4), plic)
    else if in_pending offset
    then (plic.pending (sub64 offset plic_pending_offset / 4), plic)
    else if in_enable offset
    then (let relative = sub64 offset plic_enable_base in
        (plic.enable (relative / enable_row_size) (relative % enable_row_size / 4), plic))
    else if in_threshold offset
    then (plic.threshold (sub64 offset plic_threshold_base / plic_threshold_stride), plic)
    else if in_claim offset
    then plic_claim_interrupt plic (sub64 offset plic_claim_base / plic_claim_stride)
    else (0, plic)

unfoldable pub plic_write : Plic → ℕ → ℕ → ℕ → Plic
plic_write plic address value size =
    let offset = u32 (sub64 address plic_base_addr) in
    if in_priority offset
    then record plic { priority = update plic.priority (offset / 4) (u32 value) }
    else if in_pending offset
    then plic
    else if in_enable offset
    then (let relative = sub64 offset plic_enable_base in
        let hart = relative / enable_row_size in
        record plic {
          enable =
              update plic.enable hart
                (update (plic.enable hart) (relative % enable_row_size / 4) (u32 value));
        })
    else if in_threshold offset
    then record plic {
      threshold =
          update plic.threshold (sub64 offset plic_threshold_base / plic_threshold_stride)
            (u32 value);
    }
    else if in_claim offset
    then plic_complete_interrupt plic (sub64 offset plic_claim_base / plic_claim_stride) (u32 value)
    else plic
