-- ===== src/Inst/Store/RoundTrip.antt =====
-- src/s_inst.c and src/l_inst.c: a store instruction and a load instruction of the same bytes.
use riscv_simulator.Prelude.{
  ℕ, ◌≡◌, refl, sym, ap, ◌∙◌, ◌+◌, ◌^◌, ◌<◌, true, false, ltb, leb, ◌||◌, u64, sext32, arith,
}
use riscv_simulator.Defs.{funct3_sd, funct3_ld}
use riscv_simulator.State.{Cpu, set_register}
use riscv_simulator.Memory.{memory_read, memory_write, ram_read, ram_write, memory_end_addr}
use riscv_simulator.Memory.RoundTrip.{
  IsAccess, IsAccess-is_ram, write-ram, read-ram, memory_read-memory_write,
}
use riscv_simulator.Inst.Decode.{funct3_of, rs1_of, rs2_of, rd_of, imm_s, imm_i}
use riscv_simulator.Inst.Store.{store_sized, store, execute_s_type_instruction}
use riscv_simulator.Inst.Load.{load_into, load, execute_load_instruction}

-- The addresses of the two instructions.
abbrev pub store_address : Cpu → ℕ → ℕ
store_address c instruction = u64 (c.registers (rs1_of instruction) + sext32 (imm_s instruction))

abbrev pub load_address : Cpu → ℕ → ℕ
load_address c instruction = u64 (c.registers (rs1_of instruction) + sext32 (imm_i instruction))

-- A store in main memory writes no register.
ram_write-registers :
    (c : Cpu) (address value size : ℕ) → (ram_write c address value size).registers ≡ c.registers
unfolding ram_write
ram_write-registers c address value size = ground arith

in_range :
    {address : ℕ} → IsAccess address 8 → (ltb address 0x100 || leb memory_end_addr address) ≡ false
in_range {address} access = ground (arith, access.base_le, access.end_le)

sd-write :
    (c : Cpu) (instruction : ℕ)
    → funct3_of instruction ≡ funct3_sd
    → IsAccess (store_address c instruction) 8
    → execute_s_type_instruction c instruction
      ≡ memory_write c (store_address c instruction) (c.registers (rs2_of instruction)) 8
unfolding execute_s_type_instruction store store_sized
sd-write c instruction f access = rw (f, in_range access) refl

ld-read :
    (c : Cpu) (instruction address : ℕ)
    → funct3_of instruction ≡ funct3_ld
    → load_address c instruction ≡ address
    → (execute_load_instruction c instruction).registers (rd_of instruction)
      ≡ u64 (memory_read c address 8 true).0
unfolding execute_load_instruction load load_into set_register
ld-read c instruction address f e = rw (f, e) (ground arith)

signed-same :
    (c : Cpu) (address : ℕ)
    → IsAccess address 8
    → (memory_read c address 8 true).0 ≡ (memory_read c address 8 false).0
unfolding ram_read
signed-same c address access =
    let ram = IsAccess-is_ram address 8 access in
    ap (λ (r : ℕ × Cpu). r.0) (read-ram c address 8 true ram)
    ∙ sym (ap (λ (r : ℕ × Cpu). r.0) (read-ram c address 8 false ram))

memory_write-registers :
    (c : Cpu) (address value : ℕ)
    → IsAccess address 8
    → (memory_write c address value 8).registers ≡ c.registers
memory_write-registers c address value access =
    ap (λ (d : Cpu). d.registers) (write-ram c address value 8 (IsAccess-is_ram address 8 access))
    ∙ ram_write-registers c address value 8

-- An LD from the address to which an SD has just stored a register, with whatever base registers and
-- offsets the two instructions give that address, leaves the value of that register in its own, if the
-- eight bytes lie in main memory and the register holds a 64-bit value.
pub execute_load_instruction-execute_s_type_instruction :
    (c : Cpu) (sd ld : ℕ)
    → funct3_of sd ≡ funct3_sd
    → funct3_of ld ≡ funct3_ld
    → load_address c ld ≡ store_address c sd
    → IsAccess (store_address c sd) 8
    → c.registers (rs2_of sd) < 2 ^ 64
    → (execute_load_instruction (execute_s_type_instruction c sd) ld).registers (rd_of ld)
      ≡ c.registers (rs2_of sd)
execute_load_instruction-execute_s_type_instruction c sd ld f g same access value_lt =
    let address = store_address c sd in
    let value = c.registers (rs2_of sd) in
    let stored = memory_write c address value 8 in
    rw (sd-write c sd f access) (
      ld-read stored ld address g (
        ap (λ (r : ℕ → ℕ). u64 (r (rs1_of ld) + sext32 (imm_i ld)))
          (memory_write-registers c address value access)
        ∙ same)
      ∙ ap u64
          (signed-same stored address access ∙ memory_read-memory_write c address value 8 access)
      ∙ omega arith)
