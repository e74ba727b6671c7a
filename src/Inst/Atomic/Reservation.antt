-- ===== src/Inst/Atomic/Reservation.antt =====
-- LR and SC.
use riscv_simulator.Prelude.{ℕ, ◌≡◌, ◌≢◌, arith, refl, ap, ◌∙◌, sym, true, eq→==, ne→==}
use riscv_simulator.State.{Cpu, set_register}
use riscv_simulator.Memory.{is_ram, memory_read, memory_write}
use riscv_simulator.Inst.Atomic.{execute_lr_w, execute_sc_w}

lr-reserved : (c : Cpu) (rd rs1 : ℕ) → (execute_lr_w c rd rs1).reserved_address ≡ c.registers rs1
unfolding execute_lr_w
lr-reserved c rd rs1 = refl

sc-succeeds :
    (c : Cpu) (rd rs1 rs2 : ℕ)
    → c.reserved_address ≡ c.registers rs1
    → execute_sc_w c rd rs1 rs2
      ≡ set_register
          (record (memory_write c (c.registers rs1) (c.registers rs2) 8) { reserved_address = 0 })
          rd
          0
unfolding execute_sc_w
sc-succeeds c rd rs1 rs2 h = rw (eq→== c.reserved_address (c.registers rs1) h) refl

sc-fails :
    (c : Cpu) (rd rs1 rs2 : ℕ)
    → c.reserved_address ≢ c.registers rs1
    → execute_sc_w c rd rs1 rs2 ≡ set_register c rd 1
unfolding execute_sc_w
sc-fails c rd rs1 rs2 h = rw (ne→== c.reserved_address (c.registers rs1) h) refl

lr-registers :
    (c : Cpu) (rd rs1 i : ℕ)
    → is_ram (c.registers rs1) ≡ true
    → i ≢ rd
    → (execute_lr_w c rd rs1).registers i ≡ c.registers i
unfolding execute_lr_w set_register memory_read
lr-registers c rd rs1 i ram h = rw ram (ground arith)

-- LR of an address in main memory, then SC through the same address register, which LR has not
-- overwritten: the SC makes its store, returns 0 and gives the reservation up.
pub sc-execute_lr_w :
    (c : Cpu) (rd rd' rs1 rs2 : ℕ)
    → is_ram (c.registers rs1) ≡ true
    → rs1 ≢ rd
    → execute_sc_w (execute_lr_w c rd rs1) rd' rs1 rs2
      ≡ set_register
          (record (memory_write
            (execute_lr_w c rd rs1)
            (c.registers rs1)
            ((execute_lr_w c rd rs1).registers rs2)
            8) { reserved_address = 0 })
          rd'
          0
sc-execute_lr_w c rd rd' rs1 rs2 ram h =
    let c1 = execute_lr_w c rd rs1 in
    let same = lr-registers c rd rs1 rs1 ram h in
    sc-succeeds c1 rd' rs1 rs2 (lr-reserved c rd rs1 ∙ sym same)
    ∙ ap
        (λ (a : ℕ).
          set_register (record (memory_write c1 a (c1.registers rs2) 8) { reserved_address = 0 })
            rd' 0)
        same

sc-reserved :
    (c : Cpu) (rd rs1 rs2 : ℕ)
    → c.reserved_address ≡ c.registers rs1
    → (execute_sc_w c rd rs1 rs2).reserved_address ≡ 0
unfolding set_register
sc-reserved c rd rs1 rs2 h = ap (λ (d : Cpu). d.reserved_address) (sc-succeeds c rd rs1 rs2 h)

-- Behind an SC that made its store, an SC at any address but 0 fails: it returns 1 and stores nothing.
pub sc-execute_sc_w :
    (c : Cpu) (rd rs1 rs2 rd' rs1' rs2' : ℕ)
    → c.reserved_address ≡ c.registers rs1
    → (execute_sc_w c rd rs1 rs2).registers rs1' ≢ 0
    → execute_sc_w (execute_sc_w c rd rs1 rs2) rd' rs1' rs2'
      ≡ set_register (execute_sc_w c rd rs1 rs2) rd' 1
sc-execute_sc_w c rd rs1 rs2 rd' rs1' rs2' h n =
    sc-fails (execute_sc_w c rd rs1 rs2) rd' rs1' rs2' (λ e. n (sym e ∙ sc-reserved c rd rs1 rs2 h))
