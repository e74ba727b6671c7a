-- ===== src/Examples/Accesses.antt =====
-- The theorems on stores behind loads and on the translation cache, at concrete states.
use riscv_simulator.Prelude.{
  sext32, sra32, ◌≡◌, refl, inr, arith, ltb, ◌&&◌, ◌==◌, ◌!=◌, if◌then◌else◌,
}
use riscv_simulator.State.{Cpu, Mmu}
use riscv_simulator.Mmu.{flush_tlb, flush_tlb_entry}
use riscv_simulator.Mmu.Flush.{flush_tlb_entry-tlb}
use riscv_simulator.Memory.RoundTrip.{IsAccess}
use riscv_simulator.Inst.Decode.{funct3_of, rs1_of, rd_of, imm_s, imm_i}
use riscv_simulator.Inst.Load.{execute_load_instruction}
use riscv_simulator.Inst.Store.{execute_s_type_instruction}
use riscv_simulator.Inst.Store.RoundTrip.{
  store_address, execute_load_instruction-execute_s_type_instruction,
}
use riscv_simulator.Examples.States.{blank}

-- `sd x2, 8(x1)` and `ld x3, 8(x1)`, where every register holds the address of the memory.
abbrev based : Cpu
based = record blank { registers = λ i. 0x80000000 }

stored_inside : IsAccess (store_address based 0x20b423) 8
unfolding rs1_of imm_s sext32 sra32
stored_inside = record {
  is_size = inr (inr (inr refl));
  base_le = omega arith;
  end_le = omega arith;
}

execute_load_instruction-execute_s_type_instruction_example :
    (execute_load_instruction (execute_s_type_instruction based 0x20b423) 0x80b183).registers
      (rd_of 0x80b183)
    ≡ 0x80000000
unfolding funct3_of rs1_of imm_s imm_i sra32
execute_load_instruction-execute_s_type_instruction_example =
    execute_load_instruction-execute_s_type_instruction based 0x20b423 0x80b183 refl refl refl
      stored_inside (omega arith)

-- Entry 3 of a cache whose entries are valid from index 2 on.
abbrev half_full : Mmu
half_full = record {
  tlb = λ i. record {
    virtual_address = 0x1000;
    physical_address = 0;
    asid = i;
    valid = if ltb i 2 then 0 else 1;
  };
}

flush_tlb_entry-tlb_example :
    ((flush_tlb half_full).tlb 3
      ≡ (if ltb 3 16 then record (half_full.tlb 3) { valid = 0 } else half_full.tlb 3))
    × ((flush_tlb_entry half_full 0x1000 3).tlb 3 ≡ (
        if ltb 3 16
          && (half_full.tlb 3).valid != 0
          && (half_full.tlb 3).virtual_address == 0x1000
          && (half_full.tlb 3).asid == 3
        then record (half_full.tlb 3) { valid = 0 }
        else half_full.tlb 3))
flush_tlb_entry-tlb_example = flush_tlb_entry-tlb half_full 0x1000 3 3
