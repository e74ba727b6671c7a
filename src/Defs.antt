-- ===== src/Defs.antt =====
-- include/riscv_defs.h: the opcodes, the function codes and the fields of an instruction.
use riscv_simulator.Prelude.{ℕ, bit_and, ◌>>>◌}

abbrev pub opcode_load : ℕ
opcode_load = 0x03

abbrev pub opcode_misc_mem : ℕ
opcode_misc_mem = 0x0F

abbrev pub opcode_op_imm : ℕ
opcode_op_imm = 0x13

abbrev pub opcode_auipc : ℕ
opcode_auipc = 0x17

abbrev pub opcode_op_imm_32 : ℕ
opcode_op_imm_32 = 0x1B

abbrev pub opcode_store : ℕ
opcode_store = 0x23

abbrev pub opcode_amo : ℕ
opcode_amo = 0x2F

abbrev pub opcode_op : ℕ
opcode_op = 0x33

abbrev pub opcode_lui : ℕ
opcode_lui = 0x37

abbrev pub opcode_op_32 : ℕ
opcode_op_32 = 0x3B

abbrev pub opcode_op_fp : ℕ
opcode_op_fp = 0x53

abbrev pub opcode_branch : ℕ
opcode_branch = 0x63

abbrev pub opcode_jalr : ℕ
opcode_jalr = 0x67

abbrev pub opcode_jal : ℕ
opcode_jal = 0x6F

abbrev pub opcode_system : ℕ
opcode_system = 0x73

abbrev pub opcode_mask : ℕ
opcode_mask = 0x7F

abbrev pub rd_mask : ℕ
rd_mask = 0xF80

abbrev pub funct3_mask : ℕ
funct3_mask = 0x7000

abbrev pub rs1_mask : ℕ
rs1_mask = 0xF8000

abbrev pub rs2_mask : ℕ
rs2_mask = 0x1F00000

abbrev pub funct7_mask : ℕ
funct7_mask = 0xFE000000

abbrev pub funct3_add_sub : ℕ
funct3_add_sub = 0x0

abbrev pub funct3_sll : ℕ
funct3_sll = 0x1

abbrev pub funct3_slt : ℕ
funct3_slt = 0x2

abbrev pub funct3_sltu : ℕ
funct3_sltu = 0x3

abbrev pub funct3_xor : ℕ
funct3_xor = 0x4

abbrev pub funct3_srl_sra : ℕ
funct3_srl_sra = 0x5

abbrev pub funct3_or : ℕ
funct3_or = 0x6

abbrev pub funct3_and : ℕ
funct3_and = 0x7

abbrev pub funct7_add : ℕ
funct7_add = 0x00

abbrev pub funct7_sub : ℕ
funct7_sub = 0x20

abbrev pub funct7_srl : ℕ
funct7_srl = 0x00

abbrev pub funct7_sra : ℕ
funct7_sra = 0x20

abbrev pub funct3_addi : ℕ
funct3_addi = 0x0

abbrev pub funct3_slli : ℕ
funct3_slli = 0x1

abbrev pub funct3_slti : ℕ
funct3_slti = 0x2

abbrev pub funct3_sltiu : ℕ
funct3_sltiu = 0x3

abbrev pub funct3_xori : ℕ
funct3_xori = 0x4

abbrev pub funct3_srli_srai : ℕ
funct3_srli_srai = 0x5

abbrev pub funct3_ori : ℕ
funct3_ori = 0x6

abbrev pub funct3_andi : ℕ
funct3_andi = 0x7

abbrev pub funct7_srli : ℕ
funct7_srli = 0x00

abbrev pub funct7_srai : ℕ
funct7_srai = 0x20

abbrev pub funct3_sb : ℕ
funct3_sb = 0x0

abbrev pub funct3_sh : ℕ
funct3_sh = 0x1

abbrev pub funct3_sw : ℕ
funct3_sw = 0x2

abbrev pub funct3_sd : ℕ
funct3_sd = 0x3

abbrev pub funct3_lb : ℕ
funct3_lb = 0x0

abbrev pub funct3_lh : ℕ
funct3_lh = 0x1

abbrev pub funct3_lw : ℕ
funct3_lw = 0x2

abbrev pub funct3_ld : ℕ
funct3_ld = 0x3

abbrev pub funct3_lbu : ℕ
funct3_lbu = 0x4

abbrev pub funct3_lhu : ℕ
funct3_lhu = 0x5

abbrev pub funct3_beq : ℕ
funct3_beq = 0x0

abbrev pub funct3_bne : ℕ
funct3_bne = 0x1

abbrev pub funct3_blt : ℕ
funct3_blt = 0x4

abbrev pub funct3_bge : ℕ
funct3_bge = 0x5

abbrev pub funct3_bltu : ℕ
funct3_bltu = 0x6

abbrev pub funct3_bgeu : ℕ
funct3_bgeu = 0x7

abbrev pub funct3_lr : ℕ
funct3_lr = 0x2

abbrev pub funct3_sc : ℕ
funct3_sc = 0x3

abbrev pub funct7_amoswap : ℕ
funct7_amoswap = 0x01

abbrev pub funct7_amoadd : ℕ
funct7_amoadd = 0x00

abbrev pub funct7_amoxor : ℕ
funct7_amoxor = 0x04

abbrev pub funct7_amoand : ℕ
funct7_amoand = 0x0C

abbrev pub funct7_amoor : ℕ
funct7_amoor = 0x08

abbrev pub funct7_amomin : ℕ
funct7_amomin = 0x10

abbrev pub funct7_amomax : ℕ
funct7_amomax = 0x14

abbrev pub funct7_amominu : ℕ
funct7_amominu = 0x18

abbrev pub funct7_amomaxu : ℕ
funct7_amomaxu = 0x1C

abbrev pub funct7_m : ℕ
funct7_m = 0x01

abbrev pub funct3_mul : ℕ
funct3_mul = 0x0

abbrev pub funct3_mulh : ℕ
funct3_mulh = 0x1

abbrev pub funct3_mulhsu : ℕ
funct3_mulhsu = 0x2

abbrev pub funct3_mulhu : ℕ
funct3_mulhu = 0x3

abbrev pub funct3_div : ℕ
funct3_div = 0x4

abbrev pub funct3_divu : ℕ
funct3_divu = 0x5

abbrev pub funct3_rem : ℕ
funct3_rem = 0x6

abbrev pub funct3_remu : ℕ
funct3_remu = 0x7

abbrev pub max_harts : ℕ
max_harts = 8

-- The macros that take an instruction apart: a mask, then a shift.
unfoldable pub opcode : ℕ → ℕ
opcode instruction = bit_and instruction opcode_mask

unfoldable pub rd_field : ℕ → ℕ
rd_field instruction = bit_and instruction rd_mask >>> 7

unfoldable pub funct3_field : ℕ → ℕ
funct3_field instruction = bit_and instruction funct3_mask >>> 12

unfoldable pub rs1_field : ℕ → ℕ
rs1_field instruction = bit_and instruction rs1_mask >>> 15

unfoldable pub rs2_field : ℕ → ℕ
rs2_field instruction = bit_and instruction rs2_mask >>> 20

unfoldable pub funct7_field : ℕ → ℕ
funct7_field instruction = bit_and instruction funct7_mask >>> 25
