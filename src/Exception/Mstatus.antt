-- ===== src/Exception/Mstatus.antt =====
-- What a trap and MRET do to the bits of `mstatus`.
use riscv_simulator.Prelude.{
  ℕ, ◌≡◌, arith, ◌+◌, ◌-◌, ◌*◌, ◌/◌, ◌%◌, ◌^◌, ◌<◌, min, max, bit_and, bit_or, bit, bit-lt,
  bit-bit_and, bit-bit_or,
}
use riscv_simulator.Prelude.{
  bit-complement, bit-two_pow, bit-eq-div, bit_and-mask, not64, ◌>>>◌, if◌then◌else◌, ◌==◌,
  bit-zero, zero, suc,
}
use native.Mathlib.Nat.{one-mul}
use riscv_simulator.CsrDefs.{mstatus_mpp, mstatus_mpie, mstatus_mie}
use riscv_simulator.Exception.{save_priv, save_mie}
use riscv_simulator.Csr.{mret_mstatus}

-- One bit of a word with the bits of a mask replaced.
bit-replace :
    (w mask v i : ℕ)
    → mask < 2 ^ 64
    → i < 64
    → bit (bit_or (bit_and w (not64 mask)) v) i ≡ max (min (bit w i) (1 - bit mask i)) (bit v i)
bit-replace w mask v i h g = omega (
  arith,
  bit-bit_or i (bit_and w (not64 mask)) v,
  bit-bit_and i w (not64 mask),
  bit-complement 64 mask i h g,
)

bit-drop :
    (w mask i : ℕ)
    → mask < 2 ^ 64
    → i < 64
    → bit (bit_and w (not64 mask)) i ≡ min (bit w i) (1 - bit mask i)
bit-drop w mask i h g = omega (arith, bit-bit_and i w (not64 mask), bit-complement 64 mask i h g)

-- A flag, and the two bits of a privilege, in their place.
bit-flag : (b k i : ℕ) → b < 2 → bit (b * 2 ^ k) i ≡ (if i == k then b else 0)
bit-flag zero k i h = ground (arith, bit-zero i)
bit-flag (suc zero) k i h = ground (arith, bit-two_pow k i, one-mul (2 ^ k))
bit-flag (suc (suc b)) k i h = absurd (omega arith)

bit-mpp : (i : ℕ) → bit mstatus_mpp i ≡ (if i == 11 then 1 else if i == 12 then 1 else 0)
bit-mpp i = ground (arith, bit-bit_or i (2 ^ 11) (2 ^ 12), bit-two_pow 11 i, bit-two_pow 12 i)

bit-priv :
    (p i : ℕ)
    → p < 4
    → bit (p * 2 ^ 11) i ≡ (if i == 11 then p % 2 else if i == 12 then p / 2 else 0)
bit-priv zero i h = ground (arith, bit-zero i)
bit-priv (suc zero) i h = ground (arith, bit-two_pow 11 i)
bit-priv (suc (suc zero)) i h = ground (arith, bit-two_pow 12 i)
bit-priv (suc (suc (suc zero))) i h = ground (arith, bit-mpp i)
bit-priv (suc (suc (suc (suc p)))) i h = absurd (omega arith)

bit-save_priv :
    (m p i : ℕ)
    → p < 4
    → i < 64
    → bit (save_priv m p) i ≡ (if i == 11 then p % 2 else if i == 12 then p / 2 else bit m i)
unfolding save_priv
bit-save_priv m p i h g = ground (
  arith,
  bit-replace m mstatus_mpp (p * 2 ^ 11) i (omega arith) g,
  bit-mpp i,
  bit-priv p i h,
  bit-lt m i,
)

bit-save_mie : (m i : ℕ) → i < 64 → bit (save_mie m) i ≡ (if i == 7 then bit m 3 else bit m i)
unfolding save_mie
bit-save_mie m i g = ground (
  arith,
  bit-replace m mstatus_mpie (bit_and (m >>> 3) 0x1 * 2 ^ 7) i (omega arith) g,
  bit-two_pow 7 i,
  bit_and-mask 1 (m >>> 3),
  bit-eq-div 3 m,
  bit-flag (bit m 3) 7 i (bit-lt m 3),
  bit-lt m i,
)

-- What the trap and the return leave in `mstatus`.
pub bit-trap :
    (m p i : ℕ)
    → p < 4
    → i < 64
    → bit (save_mie (save_priv m p)) i
      ≡ (if i == 7 then bit m 3 else if i == 11 then p % 2 else if i == 12 then p / 2 else bit m i)
bit-trap m p i h g = ground (
  arith,
  bit-save_mie (save_priv m p) i g,
  bit-save_priv m p i h g,
  bit-save_priv m p 3 h (omega arith),
)

pub bit-mret :
    (m i : ℕ)
    → i < 64
    → bit (mret_mstatus m) i ≡ (
        if i == 7
        then 1
        else if i == 3
        then bit m 7
        else if i == 11
        then 0
        else if i == 12
        then 0
        else bit m i)
unfolding mret_mstatus
bit-mret m i g =
    let m1 = bit_and m (not64 mstatus_mpp) in
    ground (
      arith,
      bit-drop m mstatus_mpp i (omega arith) g,
      bit-drop m mstatus_mpp 7 (omega arith) (omega arith),
      bit-mpp i,
      bit-mpp 7,
      bit_and-mask 1 (m1 >>> 7),
      bit-eq-div 7 m1,
      bit-bit_or i m1 mstatus_mie,
      bit-drop m1 mstatus_mie i (omega arith) g,
      bit-two_pow 3 i,
      bit-bit_or i (bit_or m1 mstatus_mie) mstatus_mpie,
      bit-bit_or i (bit_and m1 (not64 mstatus_mie)) mstatus_mpie,
      bit-two_pow 7 i,
      bit-lt m i,
      bit-lt m 7,
    )

pub priv-saved : (x : ℕ) → bit_and (x >>> 11) 0x3 ≡ bit x 11 + 2 * bit x 12
priv-saved x = omega (arith, bit_and-mask 2 (x >>> 11), bit-eq-div 11 x, bit-eq-div 12 x)
