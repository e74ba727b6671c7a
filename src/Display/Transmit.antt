-- ===== src/Display/Transmit.antt =====
-- src/uart.c and src/display.c: a byte from the guest's store to the screen.
use riscv_simulator.Prelude.{
  ℕ, ◌≡◌, ◌≢◌, ◌<◌, refl, ◌∙◌, ap, true, List, [], ◌∷◌, ◌++◌, some, arith, bit, bit_and, u8, not32,
  bit-bit_and, bit-bit_or, bit-lt, bit_and-single, bit-eq-div,
}
use riscv_simulator.State.{Uart}
use riscv_simulator.Uart.{uart_base_addr, lsr_thre, uart_write_port, divisor_latch, uart_write}
use riscv_simulator.Disassemble.Names.{element}
use riscv_simulator.Display.Windows.{Draw}
use riscv_simulator.Display.Windows.Draw.{print, refresh}
use riscv_simulator.Display.Windows.Value.{letter}
use riscv_simulator.Display.Screen.{
  Cursor, Blink, advance, put_byte, wrap, has_byte, transmit, show_byte, blink, display_screen,
}

-- The device behind a store of one byte to the transmit register.
loaded : Uart → ℕ → Uart
loaded uart value = record uart { lsr = u8 (bit_and uart.lsr (not32 lsr_thre)); thr = u8 value }

uart_write-loaded :
    (uart : Uart) (value size : ℕ)
    → bit_and uart.lcr 0x80 ≡ 0
    → uart_write uart uart_base_addr value size ≡ loaded uart value
unfolding uart_write uart_write_port divisor_latch loaded
uart_write-loaded uart value size h = ground (arith, h)

loaded-has_byte : (uart : Uart) (value : ℕ) → has_byte (loaded uart value) ≡ true
unfolding has_byte loaded bit
loaded-has_byte uart value =
    let n = bit_and uart.lsr (not32 lsr_thre) in
    ground (
      arith,
      bit_and-single 5 (u8 n),
      bit-eq-div 5 (u8 n),
      bit-eq-div 5 n,
      bit-bit_and 5 uart.lsr (not32 lsr_thre),
    )

put_byte-letter :
    (maxx : ℕ) (c : Cursor) (value : ℕ)
    → value ≢ 10
    → value ≢ 8
    → put_byte maxx c value ≡ (advance maxx c, print c.line c.col "%s" (letter value ∷ []) ∷ [])
unfolding put_byte
put_byte-letter maxx c value not_newline not_backspace = ground arith

byte-small : (value : ℕ) → value < 256 → u8 value ≡ value
byte-small value h = omega arith

module _ (maxy maxx : ℕ) (c : Cursor) (uart : Uart) where
  shown :
      (value : ℕ)
      → value < 256
      → value ≢ 10
      → value ≢ 8
      → show_byte maxy maxx c (loaded uart value)
        ≡ wrap maxy (advance maxx c, print c.line c.col "%s" (letter value ∷ []) ∷ [])
  unfolding show_byte loaded
  shown value h not_newline not_backspace = rw (loaded-has_byte uart value) (
      ap (λ v. wrap maxy (put_byte maxx c v)) (byte-small value h)
      ∙ ap (wrap maxy) (put_byte-letter maxx c value not_newline not_backspace))

transmitted :
    (uart : Uart) (value : ℕ)
    → (bit (transmit (loaded uart value)).lsr 5 ≡ 1)
      × (bit (transmit (loaded uart value)).lsr 6 ≡ 1)
      × ((transmit (loaded uart value)).thr ≡ 0)
unfolding transmit bit
transmitted uart value = rw (loaded-has_byte uart value) (
  ground (arith, bit-bit_or 5 (loaded uart value).lsr lsr_thre, bit-lt (loaded uart value).lsr 5),
  ground (arith, bit-bit_or 6 (loaded uart value).lsr lsr_thre, bit-lt (loaded uart value).lsr 6),
  refl,
)

-- The second call of a frame of the terminal.
second-wrap :
    (maxy maxx : ℕ) (c : Cursor) (d title : Draw) (sign rest : List Draw)
    → element (title ∷ ((wrap maxy (c, d ∷ [])).1 ++ sign ++ rest)) 1 ≡ some d
unfolding element wrap
second-wrap maxy maxx c d title sign rest = ground arith

screen-loaded :
    (maxy maxx : ℕ) (c : Cursor) (b : Blink) (uart : Uart) (value : ℕ)
    → value < 256
    → value ≢ 10
    → value ≢ 8
    → element (display_screen maxy maxx c b (loaded uart value)).3 1
      ≡ some (print c.line c.col "%s" (letter value ∷ []))
unfolding display_screen
screen-loaded maxy maxx c b uart value h not_newline not_backspace =
    ap
      (λ (r : Cursor × List Draw).
        element (print 0 1 "Screen(80*25)" [] ∷ (r.1 ++ (blink b r.0).1 ++ refresh ∷ [])) 1)
      (shown maxy maxx c uart value h not_newline not_backspace)
    ∙ second-wrap maxy maxx (advance maxx c) (print c.line c.col "%s" (letter value ∷ []))
        (print 0 1 "Screen(80*25)" [])
        (blink b (wrap maxy (advance maxx c, print c.line c.col "%s" (letter value ∷ []) ∷ [])).0).1
        (refresh ∷ [])

screen-idle :
    (maxy maxx : ℕ) (c : Cursor) (b : Blink) (uart : Uart) (value : ℕ)
    → (bit (display_screen maxy maxx c b (loaded uart value)).2.lsr 5 ≡ 1)
      × (bit (display_screen maxy maxx c b (loaded uart value)).2.lsr 6 ≡ 1)
      × ((display_screen maxy maxx c b (loaded uart value)).2.thr ≡ 0)
unfolding display_screen
screen-idle maxy maxx c b uart value = transmitted uart value

-- A byte that the guest stores in the transmit register, while the divisor latch is not addressed, is
-- drawn at the cursor by the next call of `display_screen`, as the call behind the title, if it is
-- neither a newline nor a backspace; and that call leaves the register empty and sets both bits (5 and
-- 6) of the line status that say so.
pub display_screen-uart_write :
    (maxy maxx : ℕ) (c : Cursor) (b : Blink) (uart : Uart) (value size : ℕ)
    → bit_and uart.lcr 0x80 ≡ 0
    → value < 256
    → value ≢ 10
    → value ≢ 8
    → (element (display_screen maxy maxx c b (uart_write uart uart_base_addr value size)).3 1
        ≡ some (print c.line c.col "%s" (letter value ∷ [])))
      × (bit (display_screen maxy maxx c b (uart_write uart uart_base_addr value size)).2.lsr 5 ≡ 1)
      × (bit (display_screen maxy maxx c b (uart_write uart uart_base_addr value size)).2.lsr 6 ≡ 1)
      × ((display_screen maxy maxx c b (uart_write uart uart_base_addr value size)).2.thr ≡ 0)
display_screen-uart_write maxy maxx c b uart value size latch h not_newline not_backspace =
    let idle = screen-idle maxy maxx c b uart value in
    rw (uart_write-loaded uart value size latch)
      (screen-loaded maxy maxx c b uart value h not_newline not_backspace, idle.0, idle.1, idle.2)
