-- ===== src/Keyboard/Queue.antt =====
-- The receive queue of the serial port, between the keyboard and the processor, as a list of bytes.
use riscv_simulator.Prelude.{
  ℕ, zero, suc, ◌≡◌, ◌+◌, ◌-◌, ◌%◌, ◌<◌, ◌≤◌, arith, List, [], ◌∷◌, ◌++◌, update, refl, ap, ◌∙◌,
  ◌≢◌, lt→ltb, u8, bit_and, not32, if◌then◌else◌, ◌==◌,
}
use riscv_simulator.State.{Uart}
use riscv_simulator.Uart.{uart_pop, uart_fifo_size, lsr_rx_ready}
use riscv_simulator.Keyboard.{uart_push}

-- The `n` bytes of the ring from index `i` on.
unfoldable pub ring : (ℕ → ℕ) → ℕ → ℕ → List ℕ
ring fifo i zero = []
ring fifo i (suc n) = fifo (i % 16) ∷ ring fifo (i + 1) n

-- The bytes that wait, oldest first, and the relation of the three indices.
unfoldable pub contents : Uart → List ℕ
contents u = ring u.fifo u.fifo_head u.fifo_count

pub record IsRing (u : Uart) : Type 0 where
  pub head_lt : u.fifo_head < 16
  pub count_le : u.fifo_count ≤ 16
  pub tail_eq : u.fifo_tail ≡ (u.fifo_head + u.fifo_count) % 16

ring-wrap : (fifo : ℕ → ℕ) (i j n : ℕ) → i % 16 ≡ j % 16 → ring fifo i n ≡ ring fifo j n
unfolding ring
ring-wrap fifo i j zero h = refl
ring-wrap fifo i j (suc n) h =
    ap (λ (t : ℕ). fifo t ∷ ring fifo (i + 1) n) h
    ∙ ap (λ (t : List ℕ). fifo (j % 16) ∷ t) (ring-wrap fifo (i + 1) (j + 1) n (omega arith))

update-other : (fifo : ℕ → ℕ) (k v j : ℕ) → j ≢ k → update fifo k v j ≡ fifo j
update-other fifo k v j h = ground arith

update-same : (fifo : ℕ → ℕ) (k v j : ℕ) → j ≡ k → update fifo k v j ≡ v
update-same fifo k v j h = ground arith

-- A byte stored behind the last one.
ring-snoc :
    (fifo : ℕ → ℕ) (i n k v : ℕ)
    → n < 16
    → k ≡ (i + n) % 16
    → ring (update fifo k v) i (suc n) ≡ ring fifo i n ++ (v ∷ [])
unfolding ring
ring-snoc fifo i zero k v h e =
    ap (λ (t : ℕ). t ∷ []) (update-same fifo k v (i % 16) (omega (arith, e)))
ring-snoc fifo i (suc n) k v h e =
    ap (λ (t : ℕ). t ∷ ring (update fifo k v) (i + 1) (suc n))
      (update-other fifo k v (i % 16) (λ q. omega (arith, e, q)))
    ∙ ap (λ (t : List ℕ). fifo (i % 16) ∷ t)
        (ring-snoc fifo (i + 1) n k v (omega arith) (omega (arith, e)))

-- A byte pushed into a queue that is not full is the last of the bytes that wait, and the indices stay
-- in step.
pub contents-uart_push :
    (u : Uart) (key : ℕ)
    → IsRing u
    → u.fifo_count < 16
    → (contents (uart_push u key) ≡ contents u ++ (key ∷ [])) × IsRing (uart_push u key)
unfolding contents uart_push
contents-uart_push u key ok h = (
  ap (λ (n : ℕ). ring (update u.fifo u.fifo_tail key) u.fifo_head n) {y = suc u.fifo_count}
        (omega arith)
      ∙ ring-snoc u.fifo u.fifo_head u.fifo_count u.fifo_tail key h ok.tail_eq,
  record { head_lt = ok.head_lt; count_le = omega arith; tail_eq = omega (arith, ok.tail_eq) },
)

contents-suc :
    (u : Uart) (n : ℕ)
    → u.fifo_count ≡ suc n
    → u.fifo_head < 16
    → contents u ≡ u.fifo u.fifo_head ∷ ring u.fifo (u.fifo_head + 1) n
unfolding contents ring
contents-suc u n e h =
    ap (ring u.fifo u.fifo_head) e
    ∙ ap (λ (t : ℕ). u.fifo t ∷ ring u.fifo (u.fifo_head + 1) n) (omega arith)

-- The device without its oldest byte.
abbrev popped : Uart → Uart
popped u = record u {
  fifo_head = u8 ((u.fifo_head + 1) % uart_fifo_size);
  fifo_count = u.fifo_count - 1;
  lsr = if u.fifo_count - 1 == 0 then u8 (bit_and u.lsr (not32 lsr_rx_ready)) else u.lsr;
}

pop-some : (u : Uart) → 0 < u.fifo_count → uart_pop u ≡ (u.fifo u.fifo_head, popped u)
unfolding uart_pop
pop-some u h = rw (lt→ltb 0 u.fifo_count h) refl

contents-popped :
    (u : Uart)
    → IsRing u
    → 0 < u.fifo_count
    → (contents u ≡ u.fifo u.fifo_head ∷ contents (popped u)) × IsRing (popped u)
unfolding contents
contents-popped u ok h = (
  contents-suc u (u.fifo_count - 1) (omega arith) ok.head_lt
      ∙ ap (λ (t : List ℕ). u.fifo u.fifo_head ∷ t)
          (ring-wrap u.fifo (u.fifo_head + 1) (u8 ((u.fifo_head + 1) % 16)) (u.fifo_count - 1)
            (omega arith)),
  record {
    head_lt = omega arith;
    count_le = omega (arith, ok.count_le);
    tail_eq = omega (arith, ok.tail_eq);
  },
)

-- A read of the receive register takes the oldest byte out of a queue that is not empty, leaves the
-- others in order, and keeps the indices in step.
pub contents-uart_pop :
    (u : Uart)
    → IsRing u
    → 0 < u.fifo_count
    → (contents u ≡ (uart_pop u).0 ∷ contents (uart_pop u).1) × IsRing (uart_pop u).1
contents-uart_pop u ok h = rw (pop-some u h) (contents-popped u ok h)
