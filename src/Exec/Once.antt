-- ===== src/Exec/Once.antt =====
-- One round of exec_once of nemu/src/cpu/cpu-exec.c, without the trace, on any instruction set.
use riscv32_cpu.Machine.{M, get, ◌>>=◌}
use riscv32_cpu.Isa.Instpat.{Decode}
use riscv32_cpu.Exec.{set_pc}

-- The instruction at the program counter, with the `isa_exec_once` of the instruction set.
unfoldable pub one_instruction : (Decode → M Decode) → M (Unit {0})
unfolding set_pc
one_instruction isa_exec_once = do
  s ← get
  d ← isa_exec_once (record { pc = s.cpu.pc; snpc = s.cpu.pc; dnpc = 0; inst = 0 })
  set_pc d.dnpc
