-- ===== src/Clint/Valid.antt =====
-- The CLINT's operations keep every field within its width.
use riscv_simulator.Prelude.{ℕ, ◌^◌, ◌<◌, ◌+◌, arith, if-lt, or64-lt, and64-lt, u64-lt, update}
use riscv_simulator.CsrDefs.{csr_mip, mip_msip, mip_mtip}
use riscv_simulator.State.{Clint, Cpu}
use riscv_simulator.State.Valid.{
  ClintIsValid, CpuIsValid, update-Below, if-CpuIsValid, clint-IsValid, set_csr-IsValid,
}
use riscv_simulator.Clint.{clint_init, clint_read, clint_write, mip_after_msip, timer_tick}

pub clint_init-IsValid : (c : Clint) → ClintIsValid (clint_init c)
unfolding clint_init
clint_init-IsValid c = record {
  msip_lt = λ i. omega arith;
  mtimecmp_lt = λ i. ground arith;
  mtime_lt = omega arith;
}

pub clint_read-lt : {c : Clint} (addr size : ℕ) → ClintIsValid c → clint_read c addr size < 2 ^ 64
unfolding clint_read
clint_read-lt addr size valid =
    search (if-lt, valid.msip_lt, valid.mtimecmp_lt, valid.mtime_lt, zero-lt) depth 8
  where
    zero-lt : 0 < 2 ^ 64
    zero-lt = omega arith

module _ {c : Clint} (valid : ClintIsValid c) {v : ℕ} (i : ℕ) (h : v < 2 ^ 64) where
  msip-IsValid : ClintIsValid (record c { msip = update c.msip i v })
  msip-IsValid = assumption (update-Below i v valid.msip_lt h)

  mtimecmp-IsValid : ClintIsValid (record c { mtimecmp = update c.mtimecmp i v })
  mtimecmp-IsValid = assumption (update-Below i v valid.mtimecmp_lt h)

mtime-IsValid :
    {c : Clint} {v : ℕ} → ClintIsValid c → v < 2 ^ 64 → ClintIsValid (record c { mtime = v })
mtime-IsValid valid h = assumption

mip_after_msip-lt : (mip v : ℕ) → mip < 2 ^ 64 → mip_after_msip mip v < 2 ^ 64
unfolding mip_after_msip
mip_after_msip-lt mip v h = if-lt _ (or64-lt mip mip_msip h (omega arith)) (and64-lt mip _ h)

pub clint_write-IsValid :
    {c : Cpu} (addr value size : ℕ)
    → CpuIsValid c
    → value < 2 ^ 64
    → CpuIsValid (clint_write c addr value size)
unfolding clint_write
clint_write-IsValid {c} addr value size valid h =
    search
      (
        if-CpuIsValid, set_csr-IsValid, clint-IsValid, msip-IsValid, mtimecmp-IsValid,
        mtime-IsValid, mip_after_msip-lt, valid.csr_lt,
      )
      depth 12

pub timer_tick-IsValid : {c : Cpu} → CpuIsValid c → CpuIsValid (timer_tick c)
unfolding timer_tick
timer_tick-IsValid {c} valid =
    let ticked =
      clint-IsValid valid (mtime-IsValid valid.clint_valid (u64-lt (c.clint.mtime + 70000))) in
    if-CpuIsValid _
      (set_csr-IsValid csr_mip ticked (or64-lt _ mip_mtip (valid.csr_lt csr_mip) (omega arith)))
      ticked
