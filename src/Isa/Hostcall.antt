-- ===== src/Isa/Hostcall.antt =====
-- nemu/src/engine/interpreter/hostcall.c, and the macros NEMUTRAP and INV of nemu/include/cpu/cpu.h.
use riscv32_cpu.Base.{ℕ, ◌-◌, ◌^◌, Bool}
use riscv32_cpu.Machine.{RunState, end, abort, M, get, put, ◌>>=◌}
use riscv32_cpu.Memory.Paddr.{inst_fetch}

unfoldable pub set_nemu_state : RunState → ℕ → ℕ → M (Unit {0})
set_nemu_state state pc halt_ret = do
  s ← get
  put (record s { nemu_state = record { state = state; halt_pc = pc; halt_ret = halt_ret } })

-- The two words are fetched to be printed; -1 is stored into a `uint32_t`.
unfoldable pub invalid_inst : Bool → ℕ → M (Unit {0})
unfolding set_nemu_state
invalid_inst device thispc = do
  first ← inst_fetch device thispc 4
  second ← inst_fetch device first.1 4
  set_nemu_state abort thispc (2 ^ 32 - 1)

unfoldable pub nemutrap : ℕ → ℕ → M (Unit {0})
unfolding set_nemu_state
nemutrap thispc code = set_nemu_state end thispc code
