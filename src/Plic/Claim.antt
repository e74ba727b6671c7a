-- ===== src/Plic/Claim.antt =====
-- Which interrupt is claimed.
use riscv_simulator.Prelude.{
  ℕ, zero, suc, Bool, true, false, ◌≡◌, refl, arith, ◌+◌, ◌<◌, ◌≤◌, Option, some, none,
  if◌then◌else◌, Bool-cases, inl, inr, ◌⊎◌, ◌≢◌, ◌!=◌, ltb, ◌&&◌, ◌==◌, ◌/◌, ◌%◌, bit, bit-clear,
  bit_and-mask, two_pow-lt, bit_and-single, bit-lt,
}
use native.Mathlib.Nat.{one-le-pow}
use riscv_simulator.State.{Plic}
use riscv_simulator.Plic.Valid.{find_from-range}
use riscv_simulator.Plic.{
  deliverable, find_from, plic_check_interrupt, plic_claim_interrupt, claim_at, max_interrupts,
  bitmap_test,
}

find_from-here :
    (p : Plic) (hart left i : ℕ)
    → deliverable p hart i ≡ true
    → find_from p hart (suc left) i ≡ some i
unfolding find_from
find_from-here p hart left i t = rw t

find_from-later :
    (p : Plic) (hart left i : ℕ)
    → deliverable p hart i ≡ false
    → find_from p hart (suc left) i ≡ find_from p hart left (suc i)
unfolding find_from
find_from-later p hart left i t = rw t

-- The search finds the first deliverable index there is.
pub find_from-first :
    (p : Plic) (hart left i r : ℕ)
    → i ≤ r
    → r < i + left
    → deliverable p hart r ≡ true
    → ((j : ℕ) → i ≤ j → j < r → deliverable p hart j ≡ false)
    → find_from p hart left i ≡ some r
unfolding find_from
find_from-first p hart zero i r h g t first = absurd (omega arith)
find_from-first p hart (suc left) i r h g t first =
    ground (arith, first i, find_from-first p hart left (suc i) r)

find_from-none :
    (p : Plic) (hart left i : ℕ)
    → find_from p hart (suc left) i ≡ none
    → find_from p hart left (suc i) ≡ none
unfolding find_from
find_from-none p hart left i e = ground arith

none-find_from :
    (p : Plic) (hart left i : ℕ)
    → find_from p hart left i ≡ none
    → (j : ℕ) → i ≤ j
    → j < i + left
    → deliverable p hart j ≡ false
unfolding find_from
none-find_from p hart zero i e j h g = absurd (omega arith)
none-find_from p hart (suc left) i e j h g =
    ground (arith, none-find_from p hart left (suc i) (find_from-none p hart left i e) j)

some-find_from :
    (p : Plic) (hart left i r : ℕ)
    → find_from p hart left i ≡ some r
    → (deliverable p hart r ≡ true) × ((j : ℕ) → i ≤ j → j < r → deliverable p hart j ≡ false)
unfolding find_from
some-find_from p hart zero i r e = cc
some-find_from p hart (suc left) i r e = elim (Bool-cases (deliverable p hart i)) [
  | inl t ↦ ground (arith, find_from-here p hart left i t)
  | inr f ↦ ground (arith, find_from-later p hart left i f, some-find_from p hart left (suc i) r)
]

Option-cases : (o : Option ℕ) → ((r : ℕ) × (o ≡ some r)) ⊎ (o ≡ none)
Option-cases (some r) = inl (r, refl)
Option-cases none = inr refl

module _ (p : Plic) (hart : ℕ) where
  claim-some :
      {r : ℕ}
      → find_from p hart max_interrupts 0 ≡ some r
      → plic_claim_interrupt p hart ≡ (r, claim_at p hart r)
  unfolding plic_claim_interrupt
  claim-some e = rw (e, plic_claim_interrupt) refl

  claim-none : find_from p hart max_interrupts 0 ≡ none → plic_claim_interrupt p hart ≡ (0, p)
  unfolding plic_claim_interrupt
  claim-none e = rw (e, plic_claim_interrupt) refl

  check-some :
      {r : ℕ} → find_from p hart max_interrupts 0 ≡ some r → plic_check_interrupt p hart ≡ true
  unfolding plic_check_interrupt
  check-some e = rw (e, plic_check_interrupt) refl

  check-none : find_from p hart max_interrupts 0 ≡ none → plic_check_interrupt p hart ≡ false
  unfolding plic_check_interrupt
  check-none e = rw (e, plic_check_interrupt) refl

  check-true :
      plic_check_interrupt p hart ≡ true → (r : ℕ) × (find_from p hart max_interrupts 0 ≡ some r)
  check-true h = elim (Option-cases (find_from p hart max_interrupts 0)) [
    | inl s ↦ s
    | inr n ↦ absurd (cc (h, check-none n))
  ]

-- A test of a bitmap is a test of one bit.
bitmap_test-bit :
    (words : ℕ → ℕ) (i : ℕ) → bitmap_test words i ≡ (bit (words (i / 32)) (i % 32) != 0)
unfolding bitmap_test
bitmap_test-bit words i = ground (
  arith,
  bit_and-mask 5 i,
  two_pow-lt (i % 32) 32,
  bit_and-single (i % 32) (words (i / 32)),
  one-le-pow (i % 32) 2,
  bit-lt (words (i / 32)) (i % 32),
)

-- The pending bits behind a claim.
pending-claim_at :
    (p : Plic) (hart r j : ℕ)
    → bitmap_test (claim_at p hart r).pending j
      ≡ (if j == r then false else bitmap_test p.pending j)
unfolding claim_at
pending-claim_at p hart r j = ground (
  arith,
  bitmap_test-bit (claim_at p hart r).pending j,
  bitmap_test-bit p.pending j,
  bit_and-mask 5 r,
  two_pow-lt (r % 32) 32,
  bit-clear 32 (r % 32) (p.pending (r / 32)) (j % 32),
)

if-and :
    (b x y z : Bool) → ((if b then false else x) && y && z) ≡ (if b then false else (x && y && z))
if-and true x y z = refl
if-and false x y z = refl

deliverable-claim_at :
    (p : Plic) (hart r h j : ℕ)
    → deliverable (claim_at p hart r) h j ≡ (if j == r then false else deliverable p h j)
unfolding deliverable claim_at
deliverable-claim_at p hart r h j = rw (pending-claim_at p hart r j) (
    if-and (j == r) (bitmap_test p.pending j) (bitmap_test (p.enable h) j)
      (ltb (p.threshold h) (p.priority j)))

-- What a claim promises of its result `r` and of the device `p'` behind it.
pub record ClaimsLowest (p : Plic) (hart r : ℕ) (p' : Plic) : Type 0 where
  pub in_range : r < max_interrupts
  pub was_deliverable : deliverable p hart r ≡ true
  pub lowest : (j : ℕ) → j < r → deliverable p hart j ≡ false
  pub cleared : (h : ℕ) → deliverable p' h r ≡ false
  pub others : (h j : ℕ) → j ≢ r → deliverable p' h j ≡ deliverable p h j

-- When the check says that a hart has an interrupt, a claim returns the lowest of those that it may
-- take, and behind the claim that one, and no other, has stopped being deliverable.
pub plic_claim_interrupt-ClaimsLowest :
    (p : Plic) (hart : ℕ)
    → plic_check_interrupt p hart ≡ true
    → ClaimsLowest p hart (plic_claim_interrupt p hart).0 (plic_claim_interrupt p hart).1
plic_claim_interrupt-ClaimsLowest p hart h =
    let (r, e) = check-true p hart h in
    rw (claim-some p hart e) record {
      in_range = (find_from-range p hart max_interrupts 0 e).1;
      was_deliverable = (some-find_from p hart max_interrupts 0 r e).0;
      lowest = λ j. (some-find_from p hart max_interrupts 0 r e).1 j (omega arith);
      cleared = λ g. ground (arith, deliverable-claim_at p hart r g r);
      others = λ g j n. ground (arith, deliverable-claim_at p hart r g j);
    }

-- When the check says that a hart has none, none of the 128 is deliverable to it, and a claim returns
-- 0 and leaves the device as it is.
pub plic_claim_interrupt-none :
    (p : Plic) (hart : ℕ)
    → plic_check_interrupt p hart ≡ false
    → (plic_claim_interrupt p hart ≡ (0, p))
      × ((j : ℕ) → j < max_interrupts → deliverable p hart j ≡ false)
plic_claim_interrupt-none p hart h = elim (Option-cases (find_from p hart max_interrupts 0)) [
  | inl (r, e) ↦ absurd (cc (h, check-some p hart e))
  | inr e ↦ (
    claim-none p hart e,
    λ j g. none-find_from p hart max_interrupts 0 e j (omega arith) (omega arith),
  )
]
