-- ===== src/Mmu.antt =====
-- src/mmu.c: the translation cache. Only its valid bits are ever written.
pub mod Flush
use riscv_simulator.Prelude.{ℕ, zero, suc, Bool, ◌==◌, ◌!=◌, ◌&&◌, if◌then◌else◌, update}
use riscv_simulator.State.{Mmu, TlbEntry}

abbrev pub tlb_size : ℕ
tlb_size = 16

-- `mmu->tlb[i].valid = 0`
invalidate : Mmu → ℕ → Mmu
invalidate mmu i = record mmu { tlb = update mmu.tlb i (record (mmu.tlb i) { valid = 0 }) }

-- The loop of `init_mmu` and of `flush_tlb`, with `left` rounds to go at index `i`.
flush_from : ℕ → ℕ → Mmu → Mmu
unfolding invalidate
flush_from zero i mmu = mmu
flush_from (suc left) i mmu = flush_from left (suc i) (invalidate mmu i)

unfoldable pub init_mmu : Mmu → Mmu
unfolding flush_from
init_mmu mmu = flush_from tlb_size 0 mmu

unfoldable pub flush_tlb : Mmu → Mmu
unfolding flush_from
flush_tlb mmu = flush_from tlb_size 0 mmu

-- The test of `flush_tlb_entry`.
matches : TlbEntry → ℕ → ℕ → Bool
matches entry vaddr asid = entry.valid != 0 && entry.virtual_address == vaddr && entry.asid == asid

flush_entry_from : ℕ → ℕ → Mmu → ℕ → ℕ → Mmu
unfolding matches invalidate
flush_entry_from zero i mmu vaddr asid = mmu
flush_entry_from (suc left) i mmu vaddr asid =
    flush_entry_from left (suc i) (if matches (mmu.tlb i) vaddr asid then invalidate mmu i else mmu)
      vaddr asid

unfoldable pub flush_tlb_entry : Mmu → ℕ → ℕ → Mmu
unfolding flush_entry_from
flush_tlb_entry mmu vaddr asid = flush_entry_from tlb_size 0 mmu vaddr asid
