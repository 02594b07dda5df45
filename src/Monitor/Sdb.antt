-- ===== src/Monitor/Sdb.antt =====
-- nemu/src/monitor/sdb/sdb.c: the debugger's commands and its loop. What only prints (info, help,
-- the messages) is left out, but for the value it returns.
pub mod Valid
pub mod Session
use riscv32_cpu.Base.{
  ℕ, ◌+◌, ◌-◌, ◌^◌, Bool, true, false, Option, none, some, List, [], ◌∷◌, if◌then◌else◌,
}
use riscv32_cpu.Machine.{quit, M, pure, get, put, ◌>>=◌, ◌>>◌}
use riscv32_cpu.Exec.{Config, set_state, cpu_exec}
use riscv32_cpu.Monitor.Text.{Text, same_text, non_empty, strtok}

-- The `int` of a handler: 0, or -1.
pub data Reply : Type 0 where
  zero minus_one : Reply

-- The handlers of `cmd_table`.
pub data Command : Type 0 where
  cmd_help cmd_c cmd_q cmd_si cmd_info : Command

unfoldable pub cmd_table : List (Text × Command)
cmd_table =
    (b'h' ∷ b'e' ∷ b'l' ∷ b'p' ∷ [], cmd_help)
    ∷ (b'c' ∷ [], cmd_c)
    ∷ (b'q' ∷ [], cmd_q)
    ∷ (b's' ∷ b'i' ∷ [], cmd_si)
    ∷ (b'i' ∷ b'n' ∷ b'f' ∷ b'o' ∷ [], cmd_info)
    ∷ []

unfoldable pub find_command : List (Text × Command) → Text → Option Command
unfolding same_text
find_command [] cmd = none
find_command ((name, handler) ∷ table) cmd =
    let later = find_command table cmd in if same_text cmd name then some handler else later

-- nemu/src/device/device.c: the events that wait are dropped.
unfoldable pub sdl_clear_event_queue : M (Unit {0})
sdl_clear_event_queue = do
  s ← get
  put (record s { window = record (s.window) { polls = s.window.polls + 1 } })

-- `strtoull s` is the number that strtoull(s, &endptr, 0) reads, and the string at `endptr`.
module _ (c : Config) (strtoull : Text → ℕ × Text) where
  -- cpu_exec(-1), whose argument is a `uint64_t`
  unfoldable pub run_on : M Reply
  run_on = cpu_exec c (2 ^ 64 - 1) >> pure zero

  unfoldable pub quit_emulator : M Reply
  unfolding set_state
  quit_emulator = set_state quit >> pure minus_one

  unfoldable pub step_on : ℕ × Text → M Reply
  step_on (n, []) = cpu_exec c n >> pure zero
  step_on (n, e ∷ rest) = pure minus_one

  unfoldable pub step_instructions : Option Text → M Reply
  unfolding step_on
  step_instructions none = cpu_exec c 1 >> pure zero
  step_instructions (some []) = cpu_exec c 1 >> pure zero
  step_instructions (some (a ∷ args)) = step_on (strtoull (a ∷ args))

  unfoldable pub handle : Command → Option Text → M Reply
  unfolding run_on quit_emulator step_instructions
  handle cmd_help args = pure zero
  handle cmd_c args = run_on
  handle cmd_q args = quit_emulator
  handle cmd_si args = step_instructions args
  handle cmd_info args = pure zero

  -- An unknown command only prints.
  unfoldable pub run_command : Option Command → Option Text → M Reply
  unfolding handle
  run_command none args = pure zero
  run_command (some command) args = handle command args

  unfoldable pub unless_left : Reply → M (Unit {0}) → M (Unit {0})
  unless_left zero rest = rest
  unless_left minus_one rest = pure tt

  -- One line, and the rounds after it.
  unfoldable pub do_line : Option (Text × Text) → M (Unit {0}) → M (Unit {0})
  unfolding cmd_table find_command sdl_clear_event_queue run_command unless_left
  do_line none rest = rest
  do_line (some (cmd, after)) rest = do
    if c.device then sdl_clear_event_queue else pure tt
    reply ← run_command (find_command cmd_table cmd) (non_empty after)
    unless_left reply rest

  -- The lines that readline returns before NULL.
  unfoldable pub read_lines : List Text → M (Unit {0})
  unfolding strtok do_line
  read_lines [] = pure tt
  read_lines (str ∷ later) = do_line (strtok str) (read_lines later)

  unfoldable pub sdb_mainloop : Bool → List Text → M (Unit {0})
  unfolding run_on read_lines
  sdb_mainloop true lines = run_on >>= λ _. pure tt
  sdb_mainloop false lines = read_lines lines
