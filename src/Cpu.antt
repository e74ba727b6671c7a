-- ===== src/Cpu.antt =====
-- src/cpu.c: the processor's reset, external interrupts, and the execution of one instruction.
pub mod Valid
pub mod Zero
use riscv_simulator.Prelude.{ℕ, true, false, ◌+◌, bit_and, bit_or, ◌==◌, if◌then◌else◌}
use riscv_simulator.Prelude.{update, u64, shl32, shl64, sext32, ◌>>>◌}
use riscv_simulator.Defs.{
  opcode, rd_field, opcode_load, opcode_misc_mem, opcode_op_imm, opcode_auipc, opcode_op_imm_32,
  opcode_store, opcode_amo, opcode_op, opcode_lui, opcode_op_32, opcode_op_fp, opcode_branch,
  opcode_jalr, opcode_jal, opcode_system,
}
use riscv_simulator.CsrDefs.{csr_mip, mip_meip, prv_m}
use riscv_simulator.State.{Cpu, Clint, Plic, Uart, set_register, set_csr}
use riscv_simulator.Mmu.{init_mmu}
use riscv_simulator.Exception.{handle_interrupt}
use riscv_simulator.Csr.{execute_system_instruction}
use riscv_simulator.Inst.Decode.{imm_u}
use riscv_simulator.Inst.RType.{execute_r_type_instruction}
use riscv_simulator.Inst.IType.{execute_i_type_instruction}
use riscv_simulator.Inst.Words.{execute_i_32_type_instruction, execute_r_32_type_instruction}
use riscv_simulator.Inst.Load.{execute_load_instruction}
use riscv_simulator.Inst.Store.{execute_s_type_instruction}
use riscv_simulator.Inst.Branch.{execute_b_type_instruction}
use riscv_simulator.Inst.Jump.{execute_j_type_instruction}
use riscv_simulator.Inst.Fence.{execute_misc_mem_instructions}
use riscv_simulator.Inst.Atomic.{execute_atomic_instruction}
use riscv_simulator.Inst.Float.{Fpu, execute_f_extension_instruction}

-- The fields that the code does not assign keep their value.
unfoldable pub cpu_init : Cpu → (ℕ → ℕ) → Clint → Plic → Uart → Cpu
cpu_init cpu memory clint plic uart = record cpu {
  pc = 0;
  priv = prv_m;
  memory = memory;
  interrupt_pending = false;
  fast_mode = false;
  registers = λ _. 0;
  fregisters = λ _. 0;
  csr = λ _. 0;
  mmu = init_mmu cpu.mmu;
  current_priority = 0;
  clint = clint;
  plic = plic;
  uart = uart;
}

-- `interrupt_id` is not negative at its one call.
unfoldable pub trigger_interrupt : Cpu → ℕ → Cpu
trigger_interrupt cpu interrupt_id =
    let plic = cpu.plic in
    let word = interrupt_id >>> 5 in
    let raised = record cpu {
      plic = record plic {
        pending =
            update plic.pending word
              (bit_or (plic.pending word) (shl32 1 (bit_and interrupt_id 0x1F)));
      };
    } in
    set_csr raised csr_mip (bit_or (raised.csr csr_mip) mip_meip)

-- The cases of `cpu_execute` that it works out itself.
unfoldable pub auipc : Cpu → ℕ → Cpu
auipc cpu instruction =
    set_register cpu (rd_field instruction) (u64 (cpu.pc + shl64 (sext32 (imm_u instruction)) 12))

unfoldable pub lui : Cpu → ℕ → Cpu
lui cpu instruction = set_register cpu (rd_field instruction) (bit_and instruction 0xFFFFF000)

-- `cpu->pc_updated = true`
unfoldable pub pc_set : Cpu → Cpu
pc_set cpu = record cpu { pc_updated = true }

-- What stands before and behind the `switch`.
unfoldable pub before : Cpu → Cpu
before cpu = record (set_register cpu 0 0) { pc_updated = false }

unfoldable pub after : Cpu → Cpu
after cpu =
    let advanced = record cpu { pc = if cpu.pc_updated then cpu.pc else u64 (cpu.pc + 4) } in
    set_register advanced 0 0

module _ (fpu : Fpu) where
  -- The `switch` over the opcode.
  unfoldable pub dispatch : Cpu → ℕ → Cpu
  dispatch cpu instruction =
      let op = opcode instruction in
      if op == opcode_op
      then execute_r_type_instruction cpu instruction
      else if op == opcode_op_imm
      then execute_i_type_instruction cpu instruction
      else if op == opcode_store
      then execute_s_type_instruction cpu instruction
      else if op == opcode_load
      then execute_load_instruction cpu instruction
      else if op == opcode_auipc
      then auipc cpu instruction
      else if op == opcode_lui
      then lui cpu instruction
      else if op == opcode_branch
      then pc_set (execute_b_type_instruction cpu instruction)
      else if op == opcode_jal
      then pc_set (execute_j_type_instruction cpu instruction)
      else if op == opcode_jalr
      then pc_set (execute_j_type_instruction cpu instruction)
      else if op == opcode_op_imm_32
      then execute_i_32_type_instruction cpu instruction
      else if op == opcode_op_32
      then execute_r_32_type_instruction cpu instruction
      else if op == opcode_misc_mem
      then execute_misc_mem_instructions cpu instruction
      else if op == opcode_system
      then execute_system_instruction cpu instruction
      else if op == opcode_amo
      then execute_atomic_instruction cpu instruction
      else if op == opcode_op_fp
      then execute_f_extension_instruction fpu cpu instruction
      else cpu

  unfoldable pub cpu_execute : Cpu → ℕ → Cpu
  cpu_execute cpu instruction = (handle_interrupt (after (dispatch (before cpu) instruction))).1
