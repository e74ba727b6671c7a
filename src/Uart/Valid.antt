-- ===== src/Uart/Valid.antt =====
-- The UART's operations keep every field within its width.
use riscv_simulator.Prelude.{ℕ, ◌^◌, ◌<◌, ◌-◌, ◌==◌, Bool, true, false, if◌then◌else◌}
use riscv_simulator.Prelude.{
  arith, if-lt, bit_and, bit_or, bit_and-lt, bit_or-lt, sext8, sext8-lt, u8, u16,
}
use riscv_simulator.Prelude.{◌>>>◌, bit_and-mask, not32}
use riscv_simulator.State.{Uart}
use riscv_simulator.State.Valid.{UartIsValid}
use riscv_simulator.Uart.{
  uart_init, uart_write_port, uart_write, uart_pop, uart_read_port, uart_read, lsr_rx_ready,
}

pub uart_init-IsValid : (u : Uart) → UartIsValid u → UartIsValid (uart_init u)
unfolding uart_init
uart_init-IsValid u valid = search (zero-lt, one-lt, idle-lt, wide-lt)
  where
    zero-lt : 0 < 2 ^ 8
    zero-lt = omega arith

    one-lt : 1 < 2 ^ 8
    one-lt = omega arith

    idle-lt : 0x60 < 2 ^ 8
    idle-lt = omega arith

    wide-lt : 0 < 2 ^ 16
    wide-lt = omega arith

pub if-UartIsValid :
    (b : Bool) {x y : Uart} → UartIsValid x → UartIsValid y → UartIsValid (if b then x else y)
if-UartIsValid true p q = p
if-UartIsValid false p q = q

u8-lt : (v : ℕ) → u8 v < 2 ^ 8
u8-lt v = omega arith

u16-lt : (v : ℕ) → u16 v < 2 ^ 16
u16-lt v = omega arith

low_latch-lt : (d v : ℕ) → d < 2 ^ 16 → v < 2 ^ 8 → bit_or (bit_and d 0xFF00) v < 2 ^ 16
low_latch-lt d v h g = bit_or-lt 16 _ v (bit_and-lt 16 d _ h) (omega arith)

pub uart_write_port-IsValid :
    {u : Uart} (port value : ℕ)
    → UartIsValid u
    → value < 2 ^ 8
    → UartIsValid (uart_write_port u port value)
unfolding uart_write_port
uart_write_port-IsValid {u} port value valid h = ground (arith, low_latch-lt u.dll value)

lsr-IsValid : {u : Uart} {v : ℕ} → UartIsValid u → v < 2 ^ 8 → UartIsValid (record u { lsr = v })
lsr-IsValid valid h = assumption

pub uart_write-IsValid :
    {u : Uart} (address value size : ℕ)
    → UartIsValid u
    → UartIsValid (uart_write u address value size)
unfolding uart_write
uart_write-IsValid {u} address value size valid =
    search (if-UartIsValid, uart_write_port-IsValid, lsr-IsValid, u8-lt) depth 8

-- A result and the device behind it.
pub record ReadIsValid (bound : ℕ) (r : ℕ × Uart) : Type 0 where
  pub value_lt : r.0 < bound
  pub uart_valid : UartIsValid r.1

read : {bound v : ℕ} {u : Uart} → v < bound → UartIsValid u → ReadIsValid bound (v, u)
read h valid = assumption

if-ReadIsValid :
    {bound : ℕ} (b : Bool) {p q : ℕ × Uart}
    → ReadIsValid bound p
    → ReadIsValid bound q
    → ReadIsValid bound (if b then p else q)
if-ReadIsValid true p q = p
if-ReadIsValid false p q = q

module _ {u : Uart} (valid : UartIsValid u) where
  popped-IsValid :
      (head count : ℕ)
      → count < 2 ^ 8
      → UartIsValid (record u {
        fifo_head = u8 head;
        fifo_count = count;
        lsr = if count == 0 then u8 (bit_and u.lsr (not32 lsr_rx_ready)) else u.lsr;
      })
  popped-IsValid head count h = search (u8-lt, if-lt, valid.fifo_lt)

  uart_pop-IsValid : ReadIsValid (2 ^ 8) (uart_pop u)
  unfolding uart_pop
  uart_pop-IsValid = search (if-ReadIsValid, read, valid.fifo_lt, popped-IsValid, smaller, zero-lt)
    where
      smaller : u.fifo_count - 1 < 2 ^ 8
      smaller = omega arith

      zero-lt : 0 < 2 ^ 8
      zero-lt = omega arith

  uart_read_port-IsValid : (port : ℕ) → ReadIsValid (2 ^ 8) (uart_read_port u port)
  unfolding uart_read_port
  uart_read_port-IsValid port =
      search (if-ReadIsValid, uart_pop-IsValid, read, if-lt, latch_low-lt, latch_high-lt, zero-lt)
        depth 14
    where
      latch_low-lt : bit_and u.dll 0xFF < 2 ^ 8
      latch_low-lt = omega (arith, bit_and-mask 8 u.dll)

      latch_high-lt : bit_and (u.dll >>> 8) 0xFF < 2 ^ 8
      latch_high-lt = omega (arith, bit_and-mask 8 (u.dll >>> 8))

      zero-lt : 0 < 2 ^ 8
      zero-lt = omega arith

  pub uart_read-IsValid : (addr size : ℕ) → ReadIsValid (2 ^ 64) (uart_read u addr size)
  unfolding uart_read
  uart_read-IsValid addr size = search (if-ReadIsValid, widened-IsValid, read, zero-lt)
    where
      widened-IsValid :
          (port : ℕ)
          → ReadIsValid (2 ^ 64) (sext8 (uart_read_port u port).0, (uart_read_port u port).1)
      widened-IsValid port =
          let r = uart_read_port-IsValid port in read (sext8-lt _ r.value_lt) r.uart_valid

      zero-lt : 0 < 2 ^ 64
      zero-lt = omega arith
