-- ===== src/Keyboard/Valid.antt =====
-- A key keeps the state valid.
use riscv_simulator.Prelude.{
  ℕ, Bool, true, false, ◌+◌, ◌^◌, ◌<◌, arith, update, or64-lt, bit_or-lt, if◌then◌else◌, ◌==◌, ltb,
  ◌||◌, shl32, u8, ◌>>>◌, ◌%◌, ◌!=◌, bit_and,
}
use riscv_simulator.State.{Cpu, Uart, Plic}
use riscv_simulator.State.Valid.{
  CpuIsValid, UartIsValid, PlicIsValid, update-Below, set_csr-IsValid, plic-IsValid, uart-IsValid,
}
use riscv_simulator.CsrDefs.{csr_mip, mip_meip}
use riscv_simulator.Plic.{uart0_irq}
use riscv_simulator.Cpu.{trigger_interrupt}
use riscv_simulator.Keyboard.{
  KeyBoardData, Mode, cpu_mode, uart_mode, none_mode, uart_push, process_uart_input,
  process_cpu_input, keyboard_input, switch_mode,
}

mod16-lt : (n : ℕ) → (n + 1) % 16 < 2 ^ 8
mod16-lt n = omega arith

u8-lt : (n : ℕ) → u8 n < 2 ^ 8
u8-lt n = omega arith

-- A key.
pending-IsValid :
    {p : Plic} (i : ℕ) {v : ℕ}
    → PlicIsValid p
    → v < 2 ^ 32
    → PlicIsValid (record p { pending = update p.pending i v })
pending-IsValid i {v} ok h = assumption (update-Below i v ok.pending_lt h)

module _ {c : Cpu} (ok : CpuIsValid c) where
  trigger-IsValid : (id : ℕ) → CpuIsValid (trigger_interrupt c id)
  unfolding trigger_interrupt
  trigger-IsValid id =
      set_csr-IsValid csr_mip
        (plic-IsValid ok (
          pending-IsValid (id >>> 5) ok.plic_valid (
            bit_or-lt 32 (c.plic.pending (id >>> 5)) (shl32 1 (bit_and id 0x1F))
              (ok.plic_valid.pending_lt (id >>> 5)) (omega arith))))
        (or64-lt _ mip_meip (ok.csr_lt csr_mip) (omega arith))

push-IsValid : {u : Uart} (key : ℕ) → UartIsValid u → key < 2 ^ 8 → UartIsValid (uart_push u key)
unfolding uart_push
push-IsValid {u} key ok h = assumption (
  update-Below u.fifo_tail key ok.fifo_lt h,
  mod16-lt u.fifo_tail,
  u8-lt (u.fifo_count + 1),
  bit_or-lt 8 u.lsr 1 ok.lsr_lt (omega arith),
)

pub record PressIsValid (k : KeyBoardData) : Type 0 where
  pub cpu_ok : CpuIsValid k.cpu
  pub key_ok : k.key < 2 ^ 8

if-PressIsValid :
    (b : Bool) {x y : KeyBoardData}
    → PressIsValid x
    → PressIsValid y
    → PressIsValid (if b then x else y)
if-PressIsValid true p q = p
if-PressIsValid false p q = q

module _ {k : KeyBoardData} (ok : PressIsValid k) where
  switch-IsValid : (mode : Mode) → PressIsValid (switch_mode k mode)
  unfolding switch_mode
  switch-IsValid mode = record { cpu_ok = ok.cpu_ok; key_ok = ok.key_ok }

  cpu_input-IsValid : PressIsValid (process_cpu_input k)
  unfolding process_cpu_input
  cpu_input-IsValid = if-PressIsValid (k.key == 99 || k.key == 7) (switch-IsValid uart_mode) ok

  queued-IsValid : PressIsValid (record k {
    cpu = trigger_interrupt (record k.cpu { uart = uart_push k.cpu.uart k.key }) uart0_irq;
  })
  queued-IsValid = record {
    cpu_ok =
        trigger-IsValid (uart-IsValid ok.cpu_ok (push-IsValid k.key ok.cpu_ok.uart_valid ok.key_ok))
          uart0_irq;
    key_ok = ok.key_ok;
  }

  uart_input-IsValid : PressIsValid (process_uart_input k)
  unfolding process_uart_input
  uart_input-IsValid = if-PressIsValid (k.key == 7) (switch-IsValid cpu_mode) (
      if-PressIsValid (k.key != 255)
        (if-PressIsValid (ltb k.cpu.uart.fifo_count 16) queued-IsValid ok) ok)

by_mode-IsValid :
    (mode : Mode) {k : KeyBoardData}
    → PressIsValid k
    → PressIsValid (elim mode [
      | cpu_mode ↦ process_cpu_input k
      | uart_mode ↦ process_uart_input k
      | none_mode ↦ k
    ])
by_mode-IsValid cpu_mode ok = cpu_input-IsValid ok
by_mode-IsValid uart_mode ok = uart_input-IsValid ok
by_mode-IsValid none_mode ok = ok

pub keyboard_input-IsValid :
    {k : KeyBoardData} (key : ℕ)
    → PressIsValid k
    → key < 2 ^ 8
    → PressIsValid (keyboard_input k key)
unfolding keyboard_input
keyboard_input-IsValid {k} key ok h =
    by_mode-IsValid k.current_mode record { cpu_ok = ok.cpu_ok; key_ok = h }
