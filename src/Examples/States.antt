-- ===== src/Examples/States.antt =====
-- Concrete states: a processor at its first instruction, and devices.
use riscv_simulator.Prelude.{false, ◌-◌, ◌*◌, ◌^◌, arith, ltb, if◌then◌else◌}
use riscv_simulator.State.{Cpu, Plic, Uart}
use riscv_simulator.State.Valid.{CpuIsValid}
use riscv_simulator.Inst.Float.{Fpu}

abbrev pub host : Fpu
host = record {
  fadd = λ x y. x;
  fsub = λ x y. x;
  fmul = λ x y. x;
  fdiv = λ x y. x;
  fsqrt = λ x. x;
  fmin = λ x y. x;
  fmax = λ x y. x;
  stack_word = 0;
}

abbrev pub quiet_plic : Plic
quiet_plic = record {
  priority = λ i. 1;
  pending = λ i. 0;
  threshold = λ i. 0;
  enable = λ hart i. 2 ^ 32 - 1;
  claim_complete = λ i. 0;
}

-- Interrupts 10 and 12 are pending.
abbrev pub busy_plic : Plic
busy_plic = record quiet_plic { pending = λ i. if ltb i 1 then 5 * 2 ^ 10 else 0 }

abbrev pub idle_uart : Uart
idle_uart = record {
  thr = 0;
  rbr = 0;
  ier = 0;
  iir = 1;
  fcr = 0;
  lcr = 0;
  mcr = 0;
  lsr = 0x60;
  msr = 0;
  scr = 0;
  dll = 0;
  dlm = 0;
  fifo = λ i. 65;
  fifo_head = 15;
  fifo_tail = 1;
  fifo_count = 2;
}

abbrev pub blank : Cpu
blank = record {
  registers = λ i. 0;
  fregisters = λ i. 0;
  csr = λ i. 0;
  pc = 0x80000000;
  priv = 3;
  pc_updated = false;
  reserved_address = 0;
  memory = λ i. 0x13;
  mmu = record {
    tlb = λ i. record { virtual_address = 0; physical_address = 0; asid = 0; valid = 0 };
  };
  trap_occurred = false;
  interrupt_pending = false;
  fast_mode = false;
  clint = record { msip = λ i. 0; mtimecmp = λ i. 0; mtime = 0 };
  plic = quiet_plic;
  uart = idle_uart;
  current_priority = 0;
}

pub blank-IsValid : CpuIsValid blank
blank-IsValid = record {
  registers_lt = λ i. omega arith;
  fregisters_lt = λ i. omega arith;
  csr_lt = λ i. omega arith;
  pc_lt = omega arith;
  priv_lt = omega arith;
  reserved_lt = omega arith;
  memory_lt = λ i. omega arith;
  clint_valid = record {
    msip_lt = λ i. omega arith;
    mtimecmp_lt = λ i. omega arith;
    mtime_lt = omega arith;
  };
  plic_valid = record {
    priority_lt = λ i. omega arith;
    pending_lt = λ i. omega arith;
    threshold_lt = λ i. omega arith;
    enable_lt = λ hart i. omega arith;
    claim_lt = λ i. omega arith;
  };
  uart_valid = record {
    thr_lt = omega arith;
    rbr_lt = omega arith;
    ier_lt = omega arith;
    iir_lt = omega arith;
    fcr_lt = omega arith;
    lcr_lt = omega arith;
    mcr_lt = omega arith;
    lsr_lt = omega arith;
    msr_lt = omega arith;
    scr_lt = omega arith;
    dll_lt = omega arith;
    dlm_lt = omega arith;
    fifo_lt = λ i. omega arith;
    head_lt = omega arith;
    tail_lt = omega arith;
    count_lt = omega arith;
  };
  priority_lt = omega arith;
}
