-- ===== src/Examples/Devices.antt =====
-- The theorems on the devices and the memory, at concrete states.
use riscv_simulator.Prelude.{
  ℕ, true, false, ◌≡◌, ◌+◌, ◌%◌, ◌^◌, ◌<◌, ◌≢◌, refl, inl, inr, arith, if◌then◌else◌, bit, [], ◌∷◌,
  ◌++◌,
}
use riscv_simulator.State.{Cpu}
use riscv_simulator.Plic.{
  plic_check_interrupt, plic_claim_interrupt, deliverable, find_from, bitmap_test, max_interrupts,
}
use riscv_simulator.Plic.{plic_read, plic_write, plic_base_addr}
use riscv_simulator.Plic.Registers.{plic_read-plic_write}
use riscv_simulator.Plic.Claim.{
  ClaimsLowest, plic_claim_interrupt-ClaimsLowest, plic_claim_interrupt-none,
}
use riscv_simulator.Memory.{memory_read, memory_write}
use riscv_simulator.Memory.RoundTrip.{IsAccess, memory_read-memory_write, memory_write-outside}
use riscv_simulator.Prelude.{◌==◌, ◌!=◌, u32}
use riscv_simulator.CsrDefs.{csr_mip}
use riscv_simulator.State.{set_register}
use riscv_simulator.Memory.{is_ram, ram_write}
use riscv_simulator.Clint.{clint_read, clint_write, clint_base_addr}
use riscv_simulator.Clint.Registers.{clint_read-clint_write, clint_write-mip}
use riscv_simulator.Inst.Atomic.{execute_lr_w, execute_sc_w}
use riscv_simulator.Inst.Atomic.Reservation.{sc-execute_lr_w, sc-execute_sc_w}
use riscv_simulator.Uart.{uart_pop}
use riscv_simulator.Keyboard.{uart_push}
use riscv_simulator.Keyboard.Queue.{IsRing, contents, contents-uart_push, contents-uart_pop}
use riscv_simulator.Examples.States.{quiet_plic, busy_plic, idle_uart, blank}

-- Interrupts 10 and 12 wait: 10 is claimed.
busy_check : plic_check_interrupt busy_plic 0 ≡ true
unfolding plic_check_interrupt find_from deliverable bitmap_test
busy_check = refl

quiet_check : plic_check_interrupt quiet_plic 0 ≡ false
unfolding plic_check_interrupt find_from deliverable bitmap_test
quiet_check = refl

ten : (plic_claim_interrupt busy_plic 0).0 ≡ 10
unfolding plic_claim_interrupt find_from deliverable bitmap_test
ten = refl

plic_claim_interrupt-ClaimsLowest_example :
    ClaimsLowest busy_plic 0
      (plic_claim_interrupt busy_plic 0).0
      (plic_claim_interrupt busy_plic 0).1
plic_claim_interrupt-ClaimsLowest_example = plic_claim_interrupt-ClaimsLowest busy_plic 0 busy_check

plic_claim_interrupt-none_example :
    (plic_claim_interrupt quiet_plic 0 ≡ (0, quiet_plic))
    × ((j : ℕ) → j < max_interrupts → deliverable quiet_plic 0 j ≡ false)
plic_claim_interrupt-none_example = plic_claim_interrupt-none quiet_plic 0 quiet_check

-- The second word of enable bits of hart 0, and the priority of interrupt 10.
plic_read-plic_write_example :
    (plic_read (plic_write busy_plic (plic_base_addr + 0x2004) 0xFF 4) (plic_base_addr + 40) 4).0
    ≡ (if 40 == 0x2004 then u32 0xFF else (plic_read busy_plic (plic_base_addr + 40) 4).0)
plic_read-plic_write_example =
    plic_read-plic_write busy_plic 0x2004 40 0xFF 4 (inr (inl (omega arith, omega arith, refl)))
      (inl (omega arith, refl))

-- A word stored at the second word of main memory.
word-IsAccess : IsAccess 0x80000004 4
word-IsAccess = record {
  is_size = inr (inr (inl refl));
  base_le = omega arith;
  end_le = omega arith;
}

memory_read-memory_write_example :
    (memory_read (memory_write blank 0x80000004 0x1234567890 4) 0x80000004 4 false).0
    ≡ 0x1234567890 % 256 ^ 4
memory_read-memory_write_example =
    memory_read-memory_write blank 0x80000004 0x1234567890 4 word-IsAccess

memory_write-outside_example :
    (memory_write blank 0x80000004 0x1234567890 4).memory 8 ≡ blank.memory 8
memory_write-outside_example =
    memory_write-outside blank 0x80000004 0x1234567890 4 8 word-IsAccess (inr (omega arith))

-- A queue that wraps around.
idle-IsRing : IsRing idle_uart
idle-IsRing = record { head_lt = omega arith; count_le = omega arith; tail_eq = omega arith }

contents-uart_push_example :
    (contents (uart_push idle_uart 66) ≡ contents idle_uart ++ (66 ∷ []))
    × IsRing (uart_push idle_uart 66)
contents-uart_push_example = contents-uart_push idle_uart 66 idle-IsRing (omega arith)

contents-uart_pop_example :
    (contents idle_uart ≡ (uart_pop idle_uart).0 ∷ contents (uart_pop idle_uart).1)
    × IsRing (uart_pop idle_uart).1
contents-uart_pop_example = contents-uart_pop idle_uart idle-IsRing (omega arith)

-- The fourth word of the CLINT's registers, and a software interrupt.
clint_read-clint_write_example :
    clint_read
      (clint_write blank (clint_base_addr + 0x4008) 77 8).clint
      (clint_base_addr + 0x4008)
      8
    ≡ 77
clint_read-clint_write_example =
    clint_read-clint_write blank 0x4008 77 8 (inr (inl (omega arith, omega arith)))

clint_write-mip_example :
    bit ((clint_write blank (clint_base_addr + 0) 1 8).csr csr_mip) 3
    ≡ (if 3 == 3 then (if 1 != 0 then 1 else 0) else bit (blank.csr csr_mip) 3)
clint_write-mip_example = clint_write-mip blank 0 1 8 3 (omega arith) (omega arith)

-- LR through x5, then SC through x5.
abbrev linked : Cpu
linked = record blank { registers = λ i. 0x80000010 }

linked_ram : is_ram (linked.registers 5) ≡ true
unfolding is_ram
linked_ram = refl

sc-execute_lr_w_example :
    execute_sc_w (execute_lr_w linked 6 5) 7 5 8
    ≡ set_register
        (record (memory_write
          (execute_lr_w linked 6 5)
          (linked.registers 5)
          ((execute_lr_w linked 6 5).registers 8)
          8) { reserved_address = 0 })
        7
        0
sc-execute_lr_w_example = sc-execute_lr_w linked 6 7 5 8 linked_ram (λ e. omega (arith, e))

abbrev reserved : Cpu
reserved = record linked { reserved_address = 0x80000010 }

still_there : (execute_sc_w reserved 7 5 8).registers 5 ≢ 0
unfolding execute_sc_w memory_write is_ram ram_write set_register
still_there e = omega (arith, e)

sc-execute_sc_w_example :
    execute_sc_w (execute_sc_w reserved 7 5 8) 9 5 8
    ≡ set_register (execute_sc_w reserved 7 5 8) 9 1
sc-execute_sc_w_example = sc-execute_sc_w reserved 7 5 8 9 5 8 refl still_there
