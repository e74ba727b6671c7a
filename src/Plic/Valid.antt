-- ===== src/Plic/Valid.antt =====
-- The PLIC's operations keep every field within its width.
use riscv_simulator.Prelude.{
  ℕ, zero, suc, ◌^◌, ◌<◌, ◌≤◌, ◌+◌, ◌≡◌, refl, ◌%◌, Bool, true, false, Option, none, some,
}
use riscv_simulator.Prelude.{arith, bit_and, bit_and-lt, not32, shl32, update, if◌then◌else◌, ◌>>>◌}
use riscv_simulator.State.{Plic}
use riscv_simulator.State.Valid.{Below, PlicIsValid, update-Below}
use riscv_simulator.Plic.{
  plic_init, find_from, claim_at, plic_claim_interrupt, plic_complete_interrupt, plic_read,
  plic_write, max_interrupts,
}

pub plic_init-IsValid : (p : Plic) → PlicIsValid (plic_init p)
unfolding plic_init
plic_init-IsValid p = record {
  priority_lt = λ i. omega arith;
  pending_lt = λ i. omega arith;
  threshold_lt = λ i. omega arith;
  enable_lt = λ hart i. omega arith;
  claim_lt = λ i. omega arith;
}

if-PlicIsValid :
    (b : Bool) {x y : Plic} → PlicIsValid x → PlicIsValid y → PlicIsValid (if b then x else y)
if-PlicIsValid true p q = p
if-PlicIsValid false p q = q

-- A result and the device behind it.
pub record ReadIsValid (r : ℕ × Plic) : Type 0 where
  pub value_lt : r.0 < 2 ^ 32
  pub plic_valid : PlicIsValid r.1

if-ReadIsValid :
    (b : Bool) {p q : ℕ × Plic} → ReadIsValid p → ReadIsValid q → ReadIsValid (if b then p else q)
if-ReadIsValid true p q = p
if-ReadIsValid false p q = q

read : {v : ℕ} {p : Plic} → v < 2 ^ 32 → PlicIsValid p → ReadIsValid (v, p)
read h valid = assumption

-- The index that the search returns lies in its range.
pub find_from-range :
    (plic : Plic) (hart left i : ℕ) {k : ℕ}
    → find_from plic hart left i ≡ some k
    → (i ≤ k) × (k < i + left)
unfolding find_from
find_from-range plic hart zero i e = cc
find_from-range plic hart (suc left) i {k} e =
    ground (arith, find_from-range plic hart left (suc i) {k = k})

row-Below :
    {f : ℕ → ℕ → ℕ} (hart i v : ℕ)
    → ((h : ℕ) → Below (2 ^ 32) (f h))
    → v < 2 ^ 32
    → (h : ℕ) → Below (2 ^ 32) (update f hart (update (f hart) i v) h)
row-Below hart i v valid h j k = ground (arith, valid j k, valid hart k)

module _ {p : Plic} (valid : PlicIsValid p) where
  claim_at-IsValid : (hart i : ℕ) → i < 2 ^ 32 → PlicIsValid (claim_at p hart i)
  unfolding claim_at
  claim_at-IsValid hart i h = assumption (
    update-Below (i >>> 5) _ valid.pending_lt
        (bit_and-lt 32 _ (not32 (shl32 1 (bit_and i 0x1F))) (valid.pending_lt (i >>> 5))),
    update-Below hart i valid.claim_lt h,
  )

  pub plic_claim_interrupt-IsValid : (hart : ℕ) → ReadIsValid (plic_claim_interrupt p hart)
  unfolding plic_claim_interrupt
  plic_claim_interrupt-IsValid hart = from_search (find_from p hart max_interrupts 0) (λ k e. e)
    where
      from_search :
          (o : Option ℕ)
          → ((k : ℕ) → o ≡ some k → find_from p hart max_interrupts 0 ≡ some k)
          → ReadIsValid (elim o [ some i ↦ (i, claim_at p hart i) | none ↦ (0, p) ])
      from_search none e = read (omega arith) valid
      from_search (some k) e =
          let small : k < 2 ^ 32 =
            omega (arith, find_from-range p hart max_interrupts 0 (e k refl)) in
          read small (claim_at-IsValid hart k small)

  pub plic_complete_interrupt-IsValid :
      (hart irq : ℕ) → PlicIsValid (plic_complete_interrupt p hart irq)
  unfolding plic_complete_interrupt
  plic_complete_interrupt-IsValid hart irq =
      search (if-PlicIsValid, update-Below hart 0xFFFFFFFF valid.claim_lt (omega arith))

  pub plic_read-IsValid : (address size : ℕ) → ReadIsValid (plic_read p address size)
  unfolding plic_read
  plic_read-IsValid address size =
      search
        (
          if-ReadIsValid, read, plic_claim_interrupt-IsValid, zero-lt, valid.priority_lt,
          valid.pending_lt, valid.enable_lt, valid.threshold_lt,
        )
        depth 10
    where
      zero-lt : 0 < 2 ^ 32
      zero-lt = omega arith

  priority-IsValid :
      {v : ℕ} (i : ℕ) → v < 2 ^ 32 → PlicIsValid (record p { priority = update p.priority i v })
  priority-IsValid {v} i h = assumption (update-Below i v valid.priority_lt h)

  threshold-IsValid :
      {v : ℕ} (i : ℕ) → v < 2 ^ 32 → PlicIsValid (record p { threshold = update p.threshold i v })
  threshold-IsValid {v} i h = assumption (update-Below i v valid.threshold_lt h)

  enable-IsValid :
      {v : ℕ} (hart i : ℕ)
      → v < 2 ^ 32
      → PlicIsValid (record p { enable = update p.enable hart (update (p.enable hart) i v) })
  enable-IsValid {v} hart i h = assumption (row-Below hart i v valid.enable_lt h)

  pub plic_write-IsValid : (address value size : ℕ) → PlicIsValid (plic_write p address value size)
  unfolding plic_write
  plic_write-IsValid address value size =
      search
        (
          if-PlicIsValid, plic_complete_interrupt-IsValid, priority-IsValid, threshold-IsValid,
          enable-IsValid, u32-lt,
        )
        depth 10
    where
      u32-lt : (v : ℕ) → v % 2 ^ 32 < 2 ^ 32
      u32-lt v = omega arith
