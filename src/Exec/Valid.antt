-- ===== src/Exec/Valid.antt =====
-- Execution keeps the state well-formed, with the zero register at zero between instructions.
use riscv32_cpu.Base.{ℕ, zero, suc, ◌≡◌}
use riscv32_cpu.Fault.{ok}
use riscv32_cpu.Machine.{RunState, running, stop, end, abort, quit, Machine, M}
use riscv32_cpu.State.Gives.{
  Gives, Any, Gives-bind, Gives-bind_get, Gives-bind_any, Gives-put, Gives-pure-Any, Gives-if,
  Gives-returned, gives_rules,
}
use riscv32_cpu.Machine.Valid.{IsWord, IsReady, IsRested}
use riscv32_cpu.Device.Valid.{get_time-Gives, device_update-Gives}
use riscv32_cpu.Isa.Riscv32.Valid.{isa_exec_once-Gives-IsReady}
use riscv32_cpu.Exec.{
  Config, set_state, set_pc, count_inst, add_time, exec_once, exec_round, go_on, execute, finish,
  timed_run, cpu_exec_from, cpu_exec,
}

set_pc-Gives : (pc : ℕ) → IsWord pc → Gives IsReady (set_pc pc) Any
unfolding set_pc
set_pc-Gives pc word = Gives-bind_get _ λ s h. Gives-put _ (record {
  cpu_part = record {
    words = record { gpr = h.cpu_part.words.gpr; pc = word };
    zero_register = h.cpu_part.zero_register;
  };
  pmem_bytes = h.pmem_bytes;
  io_bytes = h.io_bytes;
})

pub set_state-Gives : (state : RunState) → Gives IsReady (set_state state) Any
unfolding set_state
set_state-Gives state = search gives_rules

count_inst-Gives : Gives IsReady count_inst Any
unfolding count_inst
count_inst-Gives = search gives_rules

add_time-Gives : (t : ℕ) → Gives IsReady (add_time t) Any
unfolding add_time
add_time-Gives t = search gives_rules

module _ (c : Config) where
  exec_once-Gives : (pc : ℕ) → Gives IsReady (exec_once c pc) Any
  unfolding exec_once
  exec_once-Gives pc =
      Gives-bind _ _ (isa_exec_once-Gives-IsReady c.device _)
        λ d word. Gives-bind_any _ _ (set_pc-Gives d.dnpc word) (λ _. search gives_rules)

  exec_round-Gives : Gives IsReady (exec_round c) Any
  unfolding exec_round
  exec_round-Gives = search (gives_rules, exec_once-Gives, count_inst-Gives)

  go_on-Gives :
      (state : RunState) (rest : M (Unit {0}))
      → Gives IsReady rest Any
      → Gives IsReady (go_on c state rest) Any
  unfolding go_on
  go_on-Gives running rest h =
      Gives-bind_any _ _ (Gives-if c.device _ _ (device_update-Gives IsRested) (Gives-pure-Any tt))
        (λ _. h)
  go_on-Gives _ rest h = Gives-pure-Any tt

  execute-Gives : (n : ℕ) → Gives IsReady (execute c n) Any
  unfolding execute
  execute-Gives zero = Gives-pure-Any tt
  execute-Gives (suc n) =
      Gives-bind_any _ _ exec_round-Gives
        λ _. Gives-bind_get _ λ s h. go_on-Gives s.nemu_state.state (execute c n) (execute-Gives n)

  finish-Gives : (state : RunState) → Gives IsReady (finish c state) Any
  unfolding finish
  finish-Gives running = set_state-Gives stop
  finish-Gives _ = Gives-pure-Any tt

  timed_run-Gives : (n : ℕ) → Gives IsReady (timed_run c n) Any
  unfolding timed_run
  timed_run-Gives n = Gives-bind_any _ _ (set_state-Gives running) λ _.
      Gives-bind_any _ _ (get_time-Gives IsRested) λ timer_start.
        Gives-bind_any _ _ (execute-Gives n) λ _.
          Gives-bind_any _ _ (get_time-Gives IsRested) λ timer_end.
            Gives-bind_any _ _ (add_time-Gives _)
              λ _. Gives-bind_get _ (λ s h. finish-Gives s.nemu_state.state)

  cpu_exec_from-Gives : (state : RunState) (n : ℕ) → Gives IsReady (cpu_exec_from c state n) Any
  unfolding cpu_exec_from
  cpu_exec_from-Gives end n = Gives-pure-Any tt
  cpu_exec_from-Gives abort n = Gives-pure-Any tt
  cpu_exec_from-Gives quit n = Gives-pure-Any tt
  cpu_exec_from-Gives _ n = timed_run-Gives n

  pub cpu_exec-Gives : (n : ℕ) → Gives IsReady (cpu_exec c n) Any
  unfolding cpu_exec
  cpu_exec-Gives n = search (gives_rules, cpu_exec_from-Gives)

-- Let every register and the program counter hold a 32-bit word, the zero register zero, and every
-- byte of the memory and of the devices' memory a byte. Whenever cpu_exec returns, that holds again,
-- with and without devices.
pub cpu_exec-IsReady :
    (c : Config) (n : ℕ) (s t : Machine) → IsReady s → cpu_exec c n s ≡ ok (tt, t) → IsReady t
cpu_exec-IsReady c n s t h e = (Gives-returned (cpu_exec-Gives c n) h e).0
