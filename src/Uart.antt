-- ===== src/Uart.antt =====
-- src/uart.c: the serial port. A read of the receive register takes a byte out of the queue, so a
-- read returns the new device as well.
pub mod Valid
use riscv_simulator.Prelude.{
  ℕ, Bool, ◌+◌, ◌-◌, ◌%◌, ◌^◌, bit_and, bit_or, ltb, ◌==◌, ◌!=◌, ◌&&◌, ◌||◌,
}
use riscv_simulator.Prelude.{if◌then◌else◌, sub64, u8, u16, shl32, not32, sext8, ◌>>>◌}
use riscv_simulator.State.{Uart}

abbrev pub uart_base_addr : ℕ
uart_base_addr = 0x10000000

abbrev pub uart_fifo_size : ℕ
uart_fifo_size = 16

abbrev pub thr_reg : ℕ
thr_reg = 0

abbrev pub dll_reg : ℕ
dll_reg = 0

abbrev pub dlm_reg : ℕ
dlm_reg = 1

abbrev pub lsr_rx_ready : ℕ
lsr_rx_ready = 2 ^ 0

abbrev pub lsr_thre : ℕ
lsr_thre = 0x60

-- The receive queue is not among what is reset.
unfoldable pub uart_init : Uart → Uart
uart_init uart = record uart {
  thr = 0;
  rbr = 0;
  ier = 0;
  iir = 0x01;
  fcr = 0;
  lcr = 0;
  mcr = 0;
  lsr = 0x60;
  msr = 0;
  scr = 0;
  dll = 0;
  dlm = 0;
}

-- `_uart_write`; `port` and `value` are already cut to their types.
unfoldable pub uart_write_port : Uart → ℕ → ℕ → Uart
uart_write_port uart port value =
    if port == 0
    then record uart { thr = value }
    else if port == 1
    then record uart { ier = value }
    else if port == 2
    then record uart { fcr = value }
    else if port == 3
    then record uart { lcr = value }
    else if port == 4
    then record uart { mcr = value }
    else if port == 5
    then record uart { lsr = value }
    else if port == 6
    then record uart { msr = value }
    else if port == 7
    then record uart { scr = value }
    else if port == 8
    then record uart { dll = bit_or (bit_and uart.dll 0xFF00) value }
    else if port == 9
    then record uart { dll = u16 (bit_or (bit_and uart.dll 0x00FF) (shl32 value 8)) }
    else uart

-- `uart->LCR & 0x80 && (offset == DLL_REG || offset == DLM_REG)`: the divisor latch is addressed.
unfoldable pub divisor_latch : Uart → ℕ → Bool
divisor_latch uart offset = bit_and uart.lcr 0x80 != 0 && (offset == dll_reg || offset == dlm_reg)

unfoldable pub uart_write : Uart → ℕ → ℕ → ℕ → Uart
uart_write uart address value size =
    let offset = sub64 address uart_base_addr in
    if ltb offset 8
    then (if divisor_latch uart offset
        then uart_write_port uart (u16 (0x8 + offset)) (u8 value)
        else if offset == thr_reg
        then uart_write_port (record uart { lsr = u8 (bit_and uart.lsr (not32 lsr_thre)) })
            (u16 offset) (u8 value)
        else uart_write_port uart (u16 offset) (u8 value))
    else uart

-- Port 0 of `_uart_read`: the oldest byte leaves the queue, 0 if there is none.
unfoldable pub uart_pop : Uart → ℕ × Uart
uart_pop uart =
    if ltb 0 uart.fifo_count
    then (
      uart.fifo uart.fifo_head,
      record uart {
        fifo_head = u8 ((uart.fifo_head + 1) % uart_fifo_size);
        fifo_count = uart.fifo_count - 1;
        lsr =
            if uart.fifo_count - 1 == 0
            then u8 (bit_and uart.lsr (not32 lsr_rx_ready))
            else uart.lsr;
      },
    )
    else (0, uart)

-- `_uart_read`
unfoldable pub uart_read_port : Uart → ℕ → ℕ × Uart
uart_read_port uart port = if port == 0 then uart_pop uart else (
  if port == 1
      then uart.ier
      else if port == 2
      then uart.iir
      else if port == 3
      then uart.lcr
      else if port == 4
      then uart.mcr
      else if port == 5
      then uart.lsr
      else if port == 6
      then uart.msr
      else if port == 7
      then uart.scr
      else if port == 8
      then bit_and uart.dll 0xFF
      else if port == 9
      then bit_and (uart.dll >>> 8) 0xFF
      else 0,
  uart,
)

-- The byte goes through a `char`, which is signed on the machines that the program is written for
-- (simulator.c reads the x86 time stamp counter), and is widened to 64 bits with its sign.
unfoldable pub uart_read : Uart → ℕ → ℕ → ℕ × Uart
uart_read uart addr size =
    let offset = sub64 addr uart_base_addr in
    if ltb offset 8
    then (let port = if divisor_latch uart offset then 0x8 + offset else offset in
        let (value, uart') = uart_read_port uart (u16 port) in (sext8 value, uart'))
    else (0, uart)
