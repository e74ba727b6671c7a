-- ===== src/CsrDefs/Numbers.antt =====
-- include/csr.h: the numbers of the registers that only the disassembler names.
use riscv_simulator.Prelude.{ℕ}

abbrev pub csr_uie : ℕ
csr_uie = 0x004

abbrev pub csr_utvec : ℕ
csr_utvec = 0x005

abbrev pub csr_uscratch : ℕ
csr_uscratch = 0x040

abbrev pub csr_ucause : ℕ
csr_ucause = 0x042

abbrev pub csr_utval : ℕ
csr_utval = 0x043

abbrev pub csr_uip : ℕ
csr_uip = 0x044

abbrev pub csr_fflags : ℕ
csr_fflags = 0x001

abbrev pub csr_frm : ℕ
csr_frm = 0x002

abbrev pub csr_fcsr : ℕ
csr_fcsr = 0x003

abbrev pub csr_sedeleg : ℕ
csr_sedeleg = 0x102

abbrev pub csr_sideleg : ℕ
csr_sideleg = 0x103

abbrev pub csr_sie : ℕ
csr_sie = 0x104

abbrev pub csr_scounteren : ℕ
csr_scounteren = 0x106

abbrev pub csr_sscratch : ℕ
csr_sscratch = 0x140

abbrev pub csr_stval : ℕ
csr_stval = 0x143

abbrev pub csr_sip : ℕ
csr_sip = 0x144

abbrev pub csr_satp : ℕ
csr_satp = 0x180

abbrev pub csr_mvendorid : ℕ
csr_mvendorid = 0xF11

abbrev pub csr_marchid : ℕ
csr_marchid = 0xF12

abbrev pub csr_mimpid : ℕ
csr_mimpid = 0xF13

abbrev pub csr_misa : ℕ
csr_misa = 0x301

abbrev pub csr_medeleg : ℕ
csr_medeleg = 0x302

abbrev pub csr_mideleg : ℕ
csr_mideleg = 0x303

abbrev pub csr_mcounteren : ℕ
csr_mcounteren = 0x306

abbrev pub csr_mscratch : ℕ
csr_mscratch = 0x340

abbrev pub csr_mtval : ℕ
csr_mtval = 0x343

abbrev pub csr_mcycle : ℕ
csr_mcycle = 0xB00

abbrev pub csr_mcycleh : ℕ
csr_mcycleh = 0xB80

abbrev pub csr_minstreth : ℕ
csr_minstreth = 0xB82

abbrev pub csr_vsstatus : ℕ
csr_vsstatus = 0x200

abbrev pub csr_vsie : ℕ
csr_vsie = 0x204

abbrev pub csr_vstvec : ℕ
csr_vstvec = 0x205

abbrev pub csr_vsscratch : ℕ
csr_vsscratch = 0x240

abbrev pub csr_vsepc : ℕ
csr_vsepc = 0x241

abbrev pub csr_vscause : ℕ
csr_vscause = 0x242

abbrev pub csr_vstval : ℕ
csr_vstval = 0x243

abbrev pub csr_vsip : ℕ
csr_vsip = 0x244

abbrev pub csr_tselect : ℕ
csr_tselect = 0x7A0

abbrev pub csr_tdata1 : ℕ
csr_tdata1 = 0x7A1

abbrev pub csr_tdata2 : ℕ
csr_tdata2 = 0x7A2

abbrev pub csr_tdata3 : ℕ
csr_tdata3 = 0x7A3

abbrev pub csr_dcsr : ℕ
csr_dcsr = 0x7B0

abbrev pub csr_dpc : ℕ
csr_dpc = 0x7B1

abbrev pub csr_dscratch : ℕ
csr_dscratch = 0x7B2

abbrev pub max_csr_index : ℕ
max_csr_index = 4095
