-- ===== src/Disassemble/Names.antt =====
-- src/disassemble.c: the names of the registers and of the control registers.
use Prim.Native.String.{String}
use riscv_simulator.Prelude.{
  ℕ, zero, suc, leb, if◌then◌else◌, update, Option, none, some, List, [], ◌∷◌,
}
use riscv_simulator.CsrDefs.{
  csr_ustatus, csr_uepc, csr_sstatus, csr_stvec, csr_sepc, csr_scause, csr_mhartid, csr_mstatus,
  csr_mie, csr_mtvec, csr_mepc, csr_mcause, csr_mip, csr_minstret,
}
use riscv_simulator.CsrDefs.Numbers.{
  csr_uie, csr_utvec, csr_uscratch, csr_ucause, csr_utval, csr_uip, csr_fflags, csr_frm, csr_fcsr,
  csr_sedeleg, csr_sideleg, csr_sie, csr_scounteren, csr_sscratch, csr_stval, csr_sip, csr_satp,
  csr_mvendorid, csr_marchid, csr_mimpid, csr_misa, csr_medeleg, csr_mideleg, csr_mcounteren,
  csr_mscratch, csr_mtval, csr_mcycle, csr_mcycleh, csr_minstreth, csr_vsstatus, csr_vsie,
  csr_vstvec, csr_vsscratch, csr_vsepc, csr_vscause, csr_vstval, csr_vsip, csr_tselect, csr_tdata1,
  csr_tdata2, csr_tdata3, csr_dcsr, csr_dpc, csr_dscratch, max_csr_index,
}

-- The element at an index; there is none behind the end.
unfoldable pub element {ℓ} : {A : Type ℓ} → List A → ℕ → Option A
element [] i = none
element (x ∷ xs) zero = some x
element (x ∷ xs) (suc i) = element xs i

unfoldable pub reg_names : List String
reg_names =
    "x0" ∷ "ra" ∷ "sp" ∷ "gp" ∷ "tp" ∷ "t0" ∷ "t1" ∷ "t2" ∷ "s0" ∷ "x9" ∷ "x10" ∷ "a1" ∷ "a2" ∷ "a3"
    ∷ "a4" ∷ "a5" ∷ "a6" ∷ "a7" ∷ "x18" ∷ "x19" ∷ "x20" ∷ "x21" ∷ "x22" ∷ "x23" ∷ "x24" ∷ "x25"
    ∷ "x26" ∷ "x27" ∷ "x28" ∷ "x29" ∷ "x30" ∷ "x31" ∷ []

-- `reg_names[index]`
unfoldable pub reg_name : ℕ → Option String
reg_name index = element reg_names index

-- `const char *csr_names[MAX_CSR_INDEX + 1]`: `none` is a null pointer.
abbrev pub CsrNames : Type 0
CsrNames = ℕ → Option String

-- The loop over the indices 0 to MAX_CSR_INDEX.
unfoldable pub unknown_names : CsrNames → CsrNames
unknown_names names index = if leb index max_csr_index then some "unknown_csr" else names index

-- The assignments `csr_names[number] = name;` in their order.
unfoldable pub assign_names : List (ℕ × String) → CsrNames → CsrNames
assign_names [] names = names
assign_names ((number, name) ∷ rest) names = assign_names rest (update names number (some name))

unfoldable pub assignments : List (ℕ × String)
assignments =
    (csr_ustatus, "ustatus")
    ∷ (csr_uie, "uie")
    ∷ (csr_utvec, "utvec")
    ∷ (csr_uscratch, "uscratch")
    ∷ (csr_uepc, "uepc")
    ∷ (csr_ucause, "ucause")
    ∷ (csr_utval, "utval")
    ∷ (csr_uip, "uip")
    ∷ (csr_fflags, "fflags")
    ∷ (csr_frm, "frm")
    ∷ (csr_fcsr, "fcsr")
    ∷ (csr_sstatus, "sstatus")
    ∷ (csr_sedeleg, "sedeleg")
    ∷ (csr_sideleg, "sideleg")
    ∷ (csr_sie, "sie")
    ∷ (csr_stvec, "stvec")
    ∷ (csr_scounteren, "scounteren")
    ∷ (csr_sscratch, "sscratch")
    ∷ (csr_sepc, "sepc")
    ∷ (csr_scause, "scause")
    ∷ (csr_stval, "stval")
    ∷ (csr_sip, "sip")
    ∷ (csr_satp, "satp")
    ∷ (csr_mvendorid, "mvendorid")
    ∷ (csr_marchid, "marchid")
    ∷ (csr_mimpid, "mimpid")
    ∷ (csr_mhartid, "mhartid")
    ∷ (csr_mstatus, "mstatus")
    ∷ (csr_misa, "misa")
    ∷ (csr_medeleg, "medeleg")
    ∷ (csr_mideleg, "mideleg")
    ∷ (csr_mie, "mie")
    ∷ (csr_mtvec, "mtvec")
    ∷ (csr_mcounteren, "mcounteren")
    ∷ (csr_mscratch, "mscratch")
    ∷ (csr_mepc, "mepc")
    ∷ (csr_mcause, "mcause")
    ∷ (csr_mtval, "mtval")
    ∷ (csr_mip, "mip")
    ∷ (csr_mcycle, "mcycle")
    ∷ (csr_minstret, "minstret")
    ∷ (csr_mcycleh, "mcycleh")
    ∷ (csr_minstreth, "minstreth")
    ∷ (csr_vsstatus, "vsstatus")
    ∷ (csr_vsie, "vsie")
    ∷ (csr_vstvec, "vstvec")
    ∷ (csr_vsscratch, "vsscratch")
    ∷ (csr_vsepc, "vsepc")
    ∷ (csr_vscause, "vscause")
    ∷ (csr_vstval, "vstval")
    ∷ (csr_vsip, "vsip")
    ∷ (csr_tselect, "tselect")
    ∷ (csr_tdata1, "tdata1")
    ∷ (csr_tdata2, "tdata2")
    ∷ (csr_tdata3, "tdata3")
    ∷ (csr_dcsr, "dcsr")
    ∷ (csr_dpc, "dpc")
    ∷ (csr_dscratch, "dscratch")
    ∷ []

unfoldable pub init_csr_names : CsrNames → CsrNames
init_csr_names names = assign_names assignments (unknown_names names)

unfoldable pub get_csr_name : CsrNames → ℕ → Option String
get_csr_name names addr = if leb addr max_csr_index then names addr else some "unknown_csr"
