-- ===== src/Exec.antt =====
-- nemu/src/cpu/cpu-exec.c: the execution loop, with nemu/src/utils/state.c. What only prints (the
-- trace, the statistics, the log) is left out, and CONFIG_DIFFTEST is off. The counts of instructions
-- to execute, of type uint64_t, are natural numbers without a bound.
pub mod Valid
pub mod Steps
pub mod Program
pub mod Boot
pub mod Settled
pub mod Untimed
pub mod Chunks
pub mod Once
use riscv32_cpu.Base.{ℕ, zero, suc, ◌+◌, ◌-◌, ◌^◌, Bool, true, false, ◌==◌, if◌then◌else◌}
use riscv32_cpu.Word.{u64}
use riscv32_cpu.Machine.{
  RunState, running, stop, end, abort, quit, Cpu, NemuState, Machine, M, pure, get, put, assert,
  ◌>>=◌, ◌>>◌,
}
use riscv32_cpu.Device.Timer.{get_time}
use riscv32_cpu.Device.Update.{device_update}
use riscv32_cpu.Isa.Instpat.{Decode}
use riscv32_cpu.Isa.Riscv32.{isa_exec_once}

-- What the build fixes: CONFIG_DEVICE, and whether the disassembler of the trace (the library
-- capstone, which is no part of the repository) finds one instruction in the word at an address.
pub record Config : Type 0 where
  pub device : Bool
  pub disassembles : ℕ → ℕ → Bool

unfoldable pub set_state : RunState → M (Unit {0})
set_state state = do
  s ← get
  put (record s { nemu_state = record (s.nemu_state) { state = state } })

unfoldable pub set_pc : ℕ → M (Unit {0})
set_pc pc = do s ← get; put (record s { cpu = record (s.cpu) { pc = pc } })

unfoldable pub count_inst : M (Unit {0})
count_inst = do s ← get; put (record s { g_nr_guest_inst = u64 (s.g_nr_guest_inst + 1) })

unfoldable pub add_time : ℕ → M (Unit {0})
add_time t = do s ← get; put (record s { g_timer = u64 (s.g_timer + t) })

module _ (c : Config) where
  -- CONFIG_ITRACE is on: the disassembly asserts that there is one instruction.
  unfoldable pub exec_once : ℕ → M (Unit {0})
  unfolding set_pc
  exec_once pc = do
    s ← isa_exec_once c.device (record { pc = pc; snpc = pc; dnpc = 0; inst = 0 })
    set_pc s.dnpc
    assert (c.disassembles s.pc s.inst)

  -- One round of the loop, up to the test of the state.
  unfoldable pub exec_round : M (Unit {0})
  unfolding count_inst
  exec_round = do s ← get; exec_once s.cpu.pc; count_inst

  -- What a round goes on with if the state is still NEMU_RUNNING.
  unfoldable pub go_on : RunState → M (Unit {0}) → M (Unit {0})
  go_on running rest = (if c.device then device_update else pure tt) >> rest
  go_on _ rest = pure tt

  unfoldable pub execute : ℕ → M (Unit {0})
  unfolding exec_round go_on
  execute zero = pure tt
  execute (suc n) = let rest = execute n in do exec_round; s ← get; go_on s.nemu_state.state rest

  unfoldable pub finish : RunState → M (Unit {0})
  unfolding set_state
  finish running = set_state stop
  finish _ = pure tt

  unfoldable pub timed_run : ℕ → M (Unit {0})
  timed_run n = do
    set_state running
    timer_start ← get_time
    execute n
    timer_end ← get_time
    add_time (u64 (timer_end + 2 ^ 64 - timer_start))
    s ← get
    finish s.nemu_state.state

  unfoldable pub cpu_exec_from : RunState → ℕ → M (Unit {0})
  cpu_exec_from end n = pure tt
  cpu_exec_from abort n = pure tt
  cpu_exec_from quit n = pure tt
  cpu_exec_from _ n = timed_run n

  unfoldable pub cpu_exec : ℕ → M (Unit {0})
  unfolding cpu_exec_from
  cpu_exec n = do s ← get; cpu_exec_from s.nemu_state.state n

unfoldable pub is_good : RunState → ℕ → Bool
is_good end ret = ret == 0
is_good quit ret = true
is_good _ ret = false

unfoldable pub is_exit_status_bad : Machine → Bool
unfolding is_good
is_exit_status_bad s = if is_good s.nemu_state.state s.nemu_state.halt_ret then false else true
