-- ===== src/Monitor/Sdb/Session.antt =====
-- Sessions of the debugger: where they end.
use riscv32_cpu.Base.{
  ℕ, ◌≡◌, refl, ◌∙◌, ap, sym, fun_ext, ◌+◌, Bool, true, false, some, List, [], ◌∷◌, ◌++◌,
}
use riscv32_cpu.Fault.{ok}
use riscv32_cpu.Machine.{quit, Machine, M, ◌>>=◌}
use riscv32_cpu.Exec.{Config, set_state, is_good, is_exit_status_bad}
use riscv32_cpu.Monitor.Text.{Text, same_text, strtok}
use riscv32_cpu.Monitor.Sdb.{
  cmd_table, find_command, sdl_clear_event_queue, quit_emulator, handle, run_command, unless_left,
  do_line, read_lines,
}

-- A line's command.
abbrev pub Commands : Text → Text → Text → Type 0
Commands line cmd after = strtok line ≡ some (cmd, after)

module _ (c : Config) (strtoull : Text → ℕ × Text) where
  -- The state in which a `q` leaves.
  after_quit : Bool → Machine → Machine
  after_quit true s = record s {
    window = record (s.window) { polls = s.window.polls + 1 };
    nemu_state = record (s.nemu_state) { state = quit };
  }
  after_quit false s = record s { nemu_state = record (s.nemu_state) { state = quit } }

  quit_by_device :
      (b : Bool) (after : Text) (rest : M (Unit {0})) (s : Machine)
      → c.device ≡ b
      → do_line c strtoull (some (b'q' ∷ [], after)) rest s ≡ ok (tt, after_quit b s)
  unfolding do_line cmd_table find_command same_text run_command handle quit_emulator unless_left
      set_state sdl_clear_event_queue after_quit ◌>>=◌
  quit_by_device true after rest s e = rw e refl
  quit_by_device false after rest s e = rw e refl

  quits :
      (b : Bool) (s : Machine)
      → ((after_quit b s).nemu_state ≡ record (s.nemu_state) { state = quit })
        × (is_exit_status_bad (after_quit b s) ≡ false)
  unfolding after_quit is_exit_status_bad is_good
  quits true s = (refl, refl)
  quits false s = (refl, refl)

  quit_line :
      (line after : Text) (later : List Text) (s : Machine)
      → Commands line (b'q' ∷ []) after
      → read_lines c strtoull (line ∷ later) s ≡ ok (tt, after_quit c.device s)
  unfolding read_lines
  quit_line line after later s q =
      rw q (quit_by_device c.device after (read_lines c strtoull later) s refl)

  -- Nothing typed after the line counts.
  unread :
      (before : List Text) (line after : Text) (later : List Text)
      → Commands line (b'q' ∷ []) after
      → read_lines c strtoull (before ++ line ∷ later) ≡ read_lines c strtoull (before ++ line ∷ [])
  unfolding read_lines
  unread [] line after later q =
      fun_ext (λ s. quit_line line after later s q ∙ sym (quit_line line after [] s q))
  unread (first ∷ before) line after later q =
      ap (do_line c strtoull (strtok first)) (unread before line after later q)

-- A line whose command is `q` ends the debugger: what is typed after it is never read, whatever was
-- typed before. A session that comes to the line returns from it with the state NEMU_QUIT, and the
-- emulator's exit status is good.
pub read_lines-q :
    (c : Config) (strtoull : Text → ℕ × Text) (before : List Text) (line after : Text)
    → (later : List Text) (s : Machine) → Commands line (b'q' ∷ []) after
    → (read_lines c strtoull (before ++ line ∷ later) s
        ≡ read_lines c strtoull (before ++ line ∷ []) s)
      × (t : Machine) × (read_lines c strtoull (line ∷ later) s ≡ ok (tt, t))
      × (t.nemu_state ≡ record (s.nemu_state) { state = quit })
      × (is_exit_status_bad t ≡ false)
read_lines-q c strtoull before line after later s q =
    let end = quits c strtoull c.device s in
    (
      ap (λ m. m s) (unread c strtoull before line after later q),
      after_quit c strtoull c.device s,
      quit_line c strtoull line after later s q,
      end.0,
      end.1,
    )
