-- ===== src/Keyboard.antt =====
-- src/keyboard.c: where a key goes. The semaphores that wake the other threads are not part of the
-- state; `key` is a `char`, given by its pattern.
pub mod Queue
pub mod Valid
use riscv_simulator.Prelude.{ℕ, ◌+◌, ◌%◌, bit_or, ltb, ◌==◌, ◌!=◌, ◌||◌, if◌then◌else◌, update, u8}
use riscv_simulator.State.{Cpu, Uart}
use riscv_simulator.Plic.{uart0_irq}
use riscv_simulator.Uart.{uart_fifo_size, lsr_rx_ready}
use riscv_simulator.Cpu.{trigger_interrupt}

pub data Mode : Type 0 where
  none_mode cpu_mode uart_mode : Mode

pub record KeyBoardData : Type 0 where
  pub cpu : Cpu
  pub key : ℕ
  pub current_mode : Mode

unfoldable pub switch_mode : KeyBoardData → Mode → KeyBoardData
switch_mode data' new_mode = record data' { current_mode = new_mode }

unfoldable pub process_cpu_input : KeyBoardData → KeyBoardData
process_cpu_input data' =
    if data'.key == 99 || data'.key == 7 then switch_mode data' uart_mode else data'

-- The byte goes to the tail of the receive queue.
unfoldable pub uart_push : Uart → ℕ → Uart
uart_push uart key = record uart {
  fifo = update uart.fifo uart.fifo_tail key;
  fifo_tail = (uart.fifo_tail + 1) % uart_fifo_size;
  fifo_count = u8 (uart.fifo_count + 1);
  lsr = bit_or uart.lsr lsr_rx_ready;
}

-- `ERR` is -1, which the byte 255 is as a `char`.
unfoldable pub process_uart_input : KeyBoardData → KeyBoardData
process_uart_input data' =
    if data'.key == 7
    then switch_mode data' cpu_mode
    else if data'.key != 255
    then (let cpu = data'.cpu in
        if ltb cpu.uart.fifo_count uart_fifo_size
        then record data' {
          cpu = trigger_interrupt (record cpu { uart = uart_push cpu.uart data'.key }) uart0_irq;
        }
        else data')
    else data'

-- One round of `keyboard_input`, behind its `read`.
unfoldable pub keyboard_input : KeyBoardData → ℕ → KeyBoardData
keyboard_input data' key =
    let pressed = record data' { key = key } in
    elim data'.current_mode [
      | cpu_mode ↦ process_cpu_input pressed
      | uart_mode ↦ process_uart_input pressed
      | none_mode ↦ pressed
    ]
