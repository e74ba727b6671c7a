-- ===== src/Mmu/Flush.antt =====
-- src/mmu.c: the flushes, entry by entry.
use riscv_simulator.Prelude.{
  ℕ, zero, suc, ◌≡◌, ◌≢◌, Bool-cases, inl, inr, ==→eq, ◌∙◌, ◌+◌, Bool, ltb, leb, ◌==◌, ◌!=◌, ◌&&◌,
  if◌then◌else◌, arith,
}
use riscv_simulator.State.{Mmu, TlbEntry}
use riscv_simulator.Mmu.{
  tlb_size, invalidate, flush_from, matches, flush_entry_from, flush_tlb, flush_tlb_entry,
}

cleared : TlbEntry → TlbEntry
cleared entry = record entry { valid = 0 }

flush_from-tlb :
    (left i : ℕ) (mmu : Mmu) (j : ℕ)
    → (flush_from left i mmu).tlb j
      ≡ (if leb i j && ltb j (i + left) then cleared (mmu.tlb j) else mmu.tlb j)
unfolding flush_from invalidate cleared
flush_from-tlb zero i mmu j = ground arith
flush_from-tlb (suc left) i mmu j = flush_from-tlb left (suc i) (invalidate mmu i) j ∙ ground arith

module _ (b : Bool) (mmu : Mmu) (i : ℕ) where
  step-same :
      (if b then invalidate mmu i else mmu).tlb i ≡ (if b then cleared (mmu.tlb i) else mmu.tlb i)
  unfolding invalidate cleared
  step-same = ground arith

  step-other : (j : ℕ) → j ≢ i → (if b then invalidate mmu i else mmu).tlb j ≡ mmu.tlb j
  unfolding invalidate
  step-other j h = ground arith

flush_entry_from-tlb :
    (left i : ℕ) (mmu : Mmu) (vaddr asid j : ℕ)
    → (flush_entry_from left i mmu vaddr asid).tlb j ≡ (
        if leb i j && ltb j (i + left) && matches (mmu.tlb j) vaddr asid
        then cleared (mmu.tlb j)
        else mmu.tlb j)
unfolding flush_entry_from
flush_entry_from-tlb zero i mmu vaddr asid j = ground arith
flush_entry_from-tlb (suc left) i mmu vaddr asid j =
    let b = matches (mmu.tlb i) vaddr asid in
    let rest =
      flush_entry_from-tlb left (suc i) (if b then invalidate mmu i else mmu) vaddr asid j in
    elim (Bool-cases (j == i)) [
      | inl here ↦ rest ∙ rw (==→eq j i here) (ground (arith, step-same b mmu i))
      | inr away ↦ rest ∙ rw (step-other b mmu i j (λ e. ground arith)) (ground arith)
    ]

-- Behind `flush_tlb` all sixteen entries are invalid; `flush_tlb_entry` makes invalid those of them that
-- are valid and have the address and the address space that it is given. Neither changes anything else.
pub flush_tlb_entry-tlb :
    (mmu : Mmu) (vaddr asid j : ℕ)
    → ((flush_tlb mmu).tlb j ≡ (if ltb j 16 then record (mmu.tlb j) { valid = 0 } else mmu.tlb j))
      × ((flush_tlb_entry mmu vaddr asid).tlb j ≡ (
          if ltb j 16
            && (mmu.tlb j).valid != 0
            && (mmu.tlb j).virtual_address == vaddr
            && (mmu.tlb j).asid == asid
          then record (mmu.tlb j) { valid = 0 }
          else mmu.tlb j))
unfolding flush_tlb flush_tlb_entry matches cleared
flush_tlb_entry-tlb mmu vaddr asid j = (
  flush_from-tlb tlb_size 0 mmu j ∙ ground arith,
  flush_entry_from-tlb tlb_size 0 mmu vaddr asid j ∙ ground arith,
)
