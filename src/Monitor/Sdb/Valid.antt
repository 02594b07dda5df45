-- ===== src/Monitor/Sdb/Valid.antt =====
-- The debugger keeps the state well-formed, whatever is typed.
use riscv32_cpu.Base.{ℕ, Bool, true, false, ◌≡◌, Option, none, some, List, [], ◌∷◌}
use riscv32_cpu.Fault.{ok}
use riscv32_cpu.Machine.{quit, Machine, M}
use riscv32_cpu.State.Gives.{
  Gives, Any, Gives-bind_any, Gives-pure-Any, Gives-if, Gives-returned, gives_rules,
}
use riscv32_cpu.Machine.Valid.{IsReady}
use riscv32_cpu.Exec.{Config}
use riscv32_cpu.Exec.Valid.{set_state-Gives, cpu_exec-Gives}
use riscv32_cpu.Monitor.Text.{Text, non_empty, strtok}
use riscv32_cpu.Monitor.Sdb.{
  Reply, zero, minus_one, Command, cmd_help, cmd_c, cmd_q, cmd_si, cmd_info, cmd_table,
  find_command, sdl_clear_event_queue, run_on, quit_emulator, step_on, step_instructions, handle,
  run_command, unless_left, do_line, read_lines, sdb_mainloop,
}

sdl_clear_event_queue-Gives : Gives IsReady sdl_clear_event_queue Any
unfolding sdl_clear_event_queue
sdl_clear_event_queue-Gives = search gives_rules

module _ (c : Config) (strtoull : Text → ℕ × Text) where
  run_on-Gives : Gives IsReady (run_on c strtoull) Any
  unfolding run_on
  run_on-Gives = Gives-bind_any _ _ (cpu_exec-Gives c _) λ _. Gives-pure-Any Reply.zero

  step_on-Gives : (r : ℕ × Text) → Gives IsReady (step_on c strtoull r) Any
  unfolding step_on
  step_on-Gives (n, []) = Gives-bind_any _ _ (cpu_exec-Gives c n) λ _. Gives-pure-Any Reply.zero
  step_on-Gives (n, e ∷ rest) = Gives-pure-Any Reply.minus_one

  step_instructions-Gives :
      (args : Option Text) → Gives IsReady (step_instructions c strtoull args) Any
  unfolding step_instructions
  step_instructions-Gives none =
      Gives-bind_any _ _ (cpu_exec-Gives c 1) λ _. Gives-pure-Any Reply.zero
  step_instructions-Gives (some []) =
      Gives-bind_any _ _ (cpu_exec-Gives c 1) λ _. Gives-pure-Any Reply.zero
  step_instructions-Gives (some (a ∷ args)) = step_on-Gives (strtoull (a ∷ args))

  handle-Gives :
      (command : Command) (args : Option Text) → Gives IsReady (handle c strtoull command args) Any
  unfolding handle quit_emulator
  handle-Gives cmd_help args = Gives-pure-Any Reply.zero
  handle-Gives cmd_c args = run_on-Gives
  handle-Gives cmd_q args = Gives-bind_any _ _ (set_state-Gives quit) λ _. Gives-pure-Any _
  handle-Gives cmd_si args = step_instructions-Gives args
  handle-Gives cmd_info args = Gives-pure-Any Reply.zero

  run_command-Gives :
      (command : Option Command) (args : Option Text)
      → Gives IsReady (run_command c strtoull command args) Any
  unfolding run_command
  run_command-Gives none args = Gives-pure-Any Reply.zero
  run_command-Gives (some command) args = handle-Gives command args

  unless_left-Gives :
      (reply : Reply) (rest : M (Unit {0}))
      → Gives IsReady rest Any
      → Gives IsReady (unless_left c strtoull reply rest) Any
  unfolding unless_left
  unless_left-Gives zero rest h = h
  unless_left-Gives minus_one rest h = Gives-pure-Any tt

  do_line-Gives :
      (token : Option (Text × Text)) (rest : M (Unit {0}))
      → Gives IsReady rest Any
      → Gives IsReady (do_line c strtoull token rest) Any
  unfolding do_line
  do_line-Gives none rest h = h
  do_line-Gives (some (cmd, after)) rest h =
      Gives-bind_any _ _ (Gives-if c.device _ _ sdl_clear_event_queue-Gives (Gives-pure-Any tt))
        λ _.
          Gives-bind_any _ _ (run_command-Gives (find_command cmd_table cmd) (non_empty after))
            λ reply. unless_left-Gives reply rest h

  read_lines-Gives : (lines : List Text) → Gives IsReady (read_lines c strtoull lines) Any
  unfolding read_lines
  read_lines-Gives [] = Gives-pure-Any tt
  read_lines-Gives (str ∷ later) = do_line-Gives (strtok str) _ (read_lines-Gives later)

  pub sdb_mainloop-Gives :
      (is_batch_mode : Bool) (lines : List Text)
      → Gives IsReady (sdb_mainloop c strtoull is_batch_mode lines) Any
  unfolding sdb_mainloop
  sdb_mainloop-Gives true lines = Gives-bind_any _ _ run_on-Gives λ _. Gives-pure-Any tt
  sdb_mainloop-Gives false lines = read_lines-Gives lines

-- Let every register and the program counter hold a 32-bit word, the zero register zero, and every
-- byte of the memories a byte. Whenever the debugger returns, in batch mode or after any sequence of
-- typed lines, that holds again, with and without devices and whatever strtoull reads.
pub sdb_mainloop-IsReady :
    (c : Config) (strtoull : Text → ℕ × Text) (is_batch_mode : Bool) (lines : List Text)
    → (s t : Machine) → IsReady s
    → sdb_mainloop c strtoull is_batch_mode lines s ≡ ok (tt, t)
    → IsReady t
sdb_mainloop-IsReady c strtoull is_batch_mode lines s t h e =
    (Gives-returned (sdb_mainloop-Gives c strtoull is_batch_mode lines) h e).0
