-- ===== src/CsrDefs.antt =====
-- include/csr.h: the numbers of the control and status registers, their bits, and the trap causes.
pub mod Numbers
use riscv_simulator.Prelude.{ℕ, ◌+◌, ◌*◌, ◌^◌}

abbrev pub csr_ustatus : ℕ
csr_ustatus = 0x000

abbrev pub csr_uepc : ℕ
csr_uepc = 0x041

abbrev pub csr_sstatus : ℕ
csr_sstatus = 0x100

abbrev pub csr_stvec : ℕ
csr_stvec = 0x105

abbrev pub csr_sepc : ℕ
csr_sepc = 0x141

abbrev pub csr_scause : ℕ
csr_scause = 0x142

abbrev pub csr_mhartid : ℕ
csr_mhartid = 0xf14

abbrev pub csr_mstatus : ℕ
csr_mstatus = 0x300

abbrev pub csr_mie : ℕ
csr_mie = 0x304

abbrev pub csr_mtvec : ℕ
csr_mtvec = 0x305

abbrev pub csr_mepc : ℕ
csr_mepc = 0x341

abbrev pub csr_mcause : ℕ
csr_mcause = 0x342

abbrev pub csr_mip : ℕ
csr_mip = 0x344

abbrev pub csr_minstret : ℕ
csr_minstret = 0xB02

abbrev pub prv_u : ℕ
prv_u = 0

abbrev pub prv_s : ℕ
prv_s = 1

abbrev pub prv_m : ℕ
prv_m = 3

abbrev pub mstatus_mie : ℕ
mstatus_mie = 2 ^ 3

abbrev pub mie_msie : ℕ
mie_msie = 2 ^ 3

abbrev pub mie_mtie : ℕ
mie_mtie = 2 ^ 7

abbrev pub mie_meie : ℕ
mie_meie = 2 ^ 11

abbrev pub cause_illegal_instruction : ℕ
cause_illegal_instruction = 2

abbrev pub cause_breakpoint : ℕ
cause_breakpoint = 3

abbrev pub cause_load_access_fault : ℕ
cause_load_access_fault = 5

abbrev pub cause_user_ecall : ℕ
cause_user_ecall = 8

abbrev pub cause_supervisor_ecall : ℕ
cause_supervisor_ecall = 9

abbrev pub cause_external_interrupt_base : ℕ
cause_external_interrupt_base = 0x8000000000000000

abbrev pub cause_machine_software_interrupt : ℕ
cause_machine_software_interrupt = cause_external_interrupt_base + 3

abbrev pub cause_machine_timer_interrupt : ℕ
cause_machine_timer_interrupt = cause_external_interrupt_base + 7

abbrev pub cause_machine_external_interrupt : ℕ
cause_machine_external_interrupt = cause_external_interrupt_base + 11

abbrev pub cause_machine_ecall : ℕ
cause_machine_ecall = 11

abbrev pub opcode_ecall : ℕ
opcode_ecall = 0x0

abbrev pub opcode_ebreak : ℕ
opcode_ebreak = 0x1

abbrev pub opcode_csrrw : ℕ
opcode_csrrw = 0x1

abbrev pub opcode_csrrs : ℕ
opcode_csrrs = 0x2

abbrev pub opcode_csrrc : ℕ
opcode_csrrc = 0x3

abbrev pub opcode_csrrwi : ℕ
opcode_csrrwi = 0x5

abbrev pub opcode_csrrsi : ℕ
opcode_csrrsi = 0x6

abbrev pub opcode_csrrci : ℕ
opcode_csrrci = 0x7

abbrev pub opcode_mret : ℕ
opcode_mret = 0x302

abbrev pub opcode_sret : ℕ
opcode_sret = 0x102

abbrev pub opcode_uret : ℕ
opcode_uret = 0x002

abbrev pub opcode_wfi : ℕ
opcode_wfi = 0x105

abbrev pub priority_machine_software_interrupt : ℕ
priority_machine_software_interrupt = 1

abbrev pub priority_machine_timer_interrupt : ℕ
priority_machine_timer_interrupt = 2

abbrev pub priority_machine_external_interrupt : ℕ
priority_machine_external_interrupt = 3

abbrev pub mstatus_mpp : ℕ
mstatus_mpp = 3 * 2 ^ 11

abbrev pub mstatus_mpie : ℕ
mstatus_mpie = 2 ^ 7

abbrev pub sstatus_spie : ℕ
sstatus_spie = 2 ^ 5

abbrev pub sstatus_spp : ℕ
sstatus_spp = 2 ^ 8

abbrev pub mip_msip : ℕ
mip_msip = 2 ^ 3

abbrev pub mip_mtip : ℕ
mip_mtip = 2 ^ 7

abbrev pub mip_meip : ℕ
mip_meip = 2 ^ 11
