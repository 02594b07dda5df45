-- ===== src/Exec/Chunks.antt =====
-- An execution in two parts is one execution, but for the time that the host's clock shows.
use riscv32_cpu.Base.{
  ℕ, zero, suc, ◌+◌, ◌-◌, ◌^◌, ◌≡◌, ◌≢◌, refl, ◌∙◌, ap, sym, inl, inr, false, arith,
}
use riscv32_cpu.Fault.{Result, ok, fault}
use riscv32_cpu.Word.{u64}
use riscv32_cpu.Machine.{
  RunState, running, stop, end, abort, quit, Machine, M, pure, get, bind_result, ◌>>=◌, ◌>>◌,
}
use riscv32_cpu.State.Gives.{Gives, Any, Holds, Gives-bind_get, Gives-bind_any, Gives-pure-Any}
use riscv32_cpu.Device.Timer.{get_time}
use riscv32_cpu.Exec.{
  Config, set_state, exec_round, go_on, execute, add_time, finish, timed_run, cpu_exec_from,
  cpu_exec,
}
use riscv32_cpu.Exec.Boot.{get_time_lem}
use riscv32_cpu.Exec.Settled.{cpu_exec-halted}
use riscv32_cpu.Exec.Steps.{is_running?, go_on-running, go_on-halted}
use riscv32_cpu.Exec.Untimed.{untimed, map_state, NotStopped, exec_round-Commutes}

-- The state of a return.
abbrev state_of : Machine → Result (Unit {0} × Machine) → Machine
state_of s (ok (_, t)) = t
state_of s (fault f) = s

abbrev with_state : RunState → Machine → Machine
with_state state s = record s { nemu_state = record (s.nemu_state) { state = state } }

module _ (c : Config) (no_device : c.device ≡ false) where
  -- What goes on behind a part of the rounds.
  abbrev continue : ℕ → Machine → Result (Unit {0} × Machine)
  continue n s = go_on c s.nemu_state.state (execute c n) s

  -- The rounds of a sum are those of the first number and, from a running state, of the second.
  execute_add :
      (a b : ℕ) (s : Machine)
      → s.nemu_state.state ≡ running
      → execute c (a + b) s ≡ bind_result (execute c a s) (λ _. continue b)
  unfolding execute ◌>>=◌
  execute_add zero b s goes =
      let sum : 0 + b ≡ b = omega arith in
      rw sum (sym (go_on-running c no_device s.nemu_state.state (execute c b) s goes))
  execute_add (suc a) b s goes =
      let sum : suc a + b ≡ suc (a + b) = omega arith in
      rw sum (after_round (exec_round c s) (λ t e. execute_add a b t e))
    where
      after_round :
          (r : Result (Unit {0} × Machine))
          → ((t : Machine)
              → t.nemu_state.state ≡ running
              → execute c (a + b) t ≡ bind_result (execute c a t) (λ _. continue b))
          → bind_result r (λ _. continue (a + b))
            ≡ bind_result (bind_result r (λ _. continue a)) (λ _. continue b)
      after_round (ok (_, t)) rest = elim (is_running? t.nemu_state.state) [
        | inl goes ↦
            go_on-running c no_device t.nemu_state.state (execute c (a + b)) t goes
            ∙ rest t goes
            ∙ ap (λ r. bind_result r (λ _. continue b))
                (sym (go_on-running c no_device t.nemu_state.state (execute c a) t goes))
        | inr halted ↦
            rw
              (
                go_on-halted c no_device t.nemu_state.state (execute c (a + b)) t halted,
                go_on-halted c no_device t.nemu_state.state (execute c a) t halted,
              )
              (sym (go_on-halted c no_device t.nemu_state.state (execute c b) t halted))
      ]
      after_round (fault f) rest = refl

  go_on-keeps :
      (state : RunState) (rest : M (Unit {0}))
      → Gives NotStopped rest Any
      → Gives NotStopped (go_on c state rest) Any
  unfolding go_on
  go_on-keeps running rest h =
      rw no_device (Gives-bind_any (pure tt) (λ _. rest) (Gives-pure-Any tt) (λ _. h))
  go_on-keeps stop rest h = Gives-pure-Any tt
  go_on-keeps end rest h = Gives-pure-Any tt
  go_on-keeps abort rest h = Gives-pure-Any tt
  go_on-keeps quit rest h = Gives-pure-Any tt

  execute-keeps : (n : ℕ) → Gives NotStopped (execute c n) Any
  unfolding execute
  execute-keeps zero = Gives-pure-Any tt
  execute-keeps (suc n) =
      Gives-bind_any _ _ (exec_round-Commutes c no_device).keeps
        λ _. Gives-bind_get _ λ s h. go_on-keeps s.nemu_state.state (execute c n) (execute-keeps n)

  go_on-untimed :
      (state : RunState) (n : ℕ) (s : Machine)
      → execute c n (untimed s) ≡ map_state (execute c n s)
      → go_on c state (execute c n) (untimed s) ≡ map_state (go_on c state (execute c n) s)
  unfolding go_on pure
  go_on-untimed running n s h =
      go_on-running c no_device running (execute c n) (untimed s) refl
      ∙ h
      ∙ ap map_state (sym (go_on-running c no_device running (execute c n) s refl))
  go_on-untimed stop n s h = refl
  go_on-untimed end n s h = refl
  go_on-untimed abort n s h = refl
  go_on-untimed quit n s h = refl

  execute-untimed : (n : ℕ) (s : Machine) → execute c n (untimed s) ≡ map_state (execute c n s)
  unfolding execute pure ◌>>=◌
  execute-untimed zero s = refl
  execute-untimed (suc n) s =
      ap (λ r. bind_result r (λ _. continue n)) ((exec_round-Commutes c no_device).at s)
      ∙ after_round (exec_round c s) (execute-untimed n)
    where
      after_round :
          (r : Result (Unit {0} × Machine))
          → ((t : Machine) → execute c n (untimed t) ≡ map_state (execute c n t))
          → bind_result (map_state r) (λ _. continue n)
            ≡ map_state (bind_result r (λ _. continue n))
      after_round (ok (_, t)) h = go_on-untimed t.nemu_state.state n t (h t)
      after_round (fault f) h = refl

  finish-untimed :
      (state : RunState) (s : Machine) → finish c state (untimed s) ≡ map_state (finish c state s)
  unfolding finish set_state pure ◌>>=◌
  finish-untimed running s = refl
  finish-untimed stop s = refl
  finish-untimed end s = refl
  finish-untimed abort s = refl
  finish-untimed quit s = refl

  -- The last part of cpu_exec, without the clock.
  abbrev settle : Result (Unit {0} × Machine) → Result (Unit {0} × Machine)
  settle r = bind_result r (λ _ t. finish c t.nemu_state.state t)

  abbrev begin : Machine → Machine
  begin s = untimed (record s { nemu_state = record (s.nemu_state) { state = running } })

  unfoldable clocked : ℕ → M (Unit {0})
  clocked timer_start = do
    timer_end ← get_time
    add_time (u64 (timer_end + 2 ^ 64 - timer_start))
    s ← get
    finish c s.nemu_state.state

  clocked-settle :
      (timer_start : ℕ) (r : Result (Unit {0} × Machine))
      → map_state (bind_result r (λ _. clocked timer_start)) ≡ settle (map_state r)
  unfolding clocked add_time ◌>>=◌
  clocked-settle timer_start (ok (_, t)) =
      rw (get_time_lem t).2 (sym (finish-untimed t.nemu_state.state _))
  clocked-settle timer_start (fault f) = refl

  timed_run-settle :
      (n : ℕ) (s : Machine) → map_state (timed_run c n s) ≡ settle (execute c n (begin s))
  unfolding timed_run clocked set_state ◌>>=◌
  timed_run-settle n s =
      let on = record s { nemu_state = record (s.nemu_state) { state = running } } in
      let timed = record on { clock = (get_time_lem on).1 } in
      rw (get_time_lem on).2 (
        clocked-settle (get_time_lem on).0 (execute c n timed)
        ∙ ap settle (sym (execute-untimed n timed)))

  finish-returns :
      (state : RunState) (s : Machine) → (t : Machine) × (finish c state s ≡ ok (tt, t))
  unfolding finish set_state pure ◌>>=◌
  finish-returns running s = (with_state stop s, refl)
  finish-returns stop s = (s, refl)
  finish-returns end s = (s, refl)
  finish-returns abort s = (s, refl)
  finish-returns quit s = (s, refl)

  finish-halted : (state : RunState) (s : Machine) → state ≢ running → finish c state s ≡ ok (tt, s)
  unfolding finish pure
  finish-halted running s h = elim (h refl) [ ]
  finish-halted stop s h = refl
  finish-halted end s h = refl
  finish-halted abort s h = refl
  finish-halted quit s h = refl

  cpu_exec-stopped :
      (n : ℕ) (s : Machine) → s.nemu_state.state ≡ stop → cpu_exec c n s ≡ timed_run c n s
  unfolding cpu_exec cpu_exec_from ◌>>=◌
  cpu_exec-stopped n s e = ap (λ state. cpu_exec_from c state n s) e

  -- The second part, from the state in which the first left the machine.
  resume :
      (b : ℕ) (x t : Machine)
      → NotStopped x
      → finish c x.nemu_state.state (untimed x) ≡ ok (tt, untimed t)
      → map_state (cpu_exec c b t) ≡ settle (continue b (untimed x))
  unfolding set_state ◌>>=◌
  resume b x t unstopped finished = elim (is_running? x.nemu_state.state) [
    | inl goes ↦
        let paused : Machine = record (untimed x) {
          nemu_state = record (x.nemu_state) { state = stop };
        } in
        let stopped : finish c running (untimed x) ≡ ok (tt, paused) = unfold finish in refl in
        let same : untimed t ≡ paused =
          ap (state_of x)
            (sym finished ∙ ap (λ state. finish c state (untimed x)) goes ∙ stopped) in
        let again : begin t ≡ untimed x =
          ap (with_state running) same ∙ ap (λ state. with_state state (untimed x)) (sym goes) in
        ap map_state (cpu_exec-stopped b t (ap (λ m. m.nemu_state.state) same))
        ∙ timed_run-settle b t
        ∙ ap (λ m. settle (execute c b m)) again
        ∙ ap settle
            (sym (go_on-running c no_device x.nemu_state.state (execute c b) (untimed x) goes))
    | inr halted ↦
        let same : untimed t ≡ untimed x =
          ap (state_of x) (sym finished ∙ finish-halted x.nemu_state.state (untimed x) halted) in
        let state : t.nemu_state.state ≡ x.nemu_state.state = ap (λ m. m.nemu_state.state) same in
        ap map_state (cpu_exec-halted c b t (rw state halted) (rw state unstopped))
        ∙ sym finished
        ∙ ap settle
            (sym (go_on-halted c no_device x.nemu_state.state (execute c b) (untimed x) halted))
  ]

  join :
      (b : ℕ) (q r : Result (Unit {0} × Machine))
      → map_state q ≡ settle (map_state r)
      → Holds NotStopped Any r
      → map_state (bind_result q (λ _. cpu_exec c b))
        ≡ settle (bind_result (map_state r) (λ _. continue b))
  join b (ok (_, t)) (ok (_, x)) e keeps = resume b x t keeps.0 (sym e)
  join b (ok (_, t)) (fault f) e keeps = cc
  join b (fault f) (ok (_, x)) e keeps =
      let returns = (finish-returns x.nemu_state.state (untimed x)).1 in cc
  join b (fault f) (fault f') e keeps = e

  parts_from :
      (a b : ℕ) (s : Machine)
      → map_state (bind_result (timed_run c a s) (λ _. cpu_exec c b))
        ≡ map_state (timed_run c (a + b) s)
  parts_from a b s =
      let on = with_state running s in
      let first : map_state (timed_run c a s) ≡ settle (map_state (execute c a on)) =
        timed_run-settle a s ∙ ap settle (execute-untimed a on) in
      join b (timed_run c a s) (execute c a on) first ((execute-keeps a).at on (λ e. cc))
      ∙ ap (λ r. settle (bind_result r (λ _. continue b))) (sym (execute-untimed a on))
      ∙ ap settle (sym (execute_add a b (begin s) refl))
      ∙ sym (timed_run-settle (a + b) s)

  parts :
      (a b : ℕ) (state : RunState) (s : Machine)
      → s.nemu_state.state ≡ state
      → map_state (bind_result (cpu_exec_from c state a s) (λ _. cpu_exec c b))
        ≡ map_state (cpu_exec_from c state (a + b) s)
  unfolding cpu_exec_from pure
  parts a b running s at = parts_from a b s
  parts a b stop s at = parts_from a b s
  parts a b end s at = ap map_state (cpu_exec-halted c b s (λ e. cc) (λ e. cc))
  parts a b abort s at = ap map_state (cpu_exec-halted c b s (λ e. cc) (λ e. cc))
  parts a b quit s at = ap map_state (cpu_exec-halted c b s (λ e. cc) (λ e. cc))

-- Without devices, executing `a` instructions and then `b` is executing `a + b`: both return, or end
-- the process, in the same way, and the states are the same but for the host's clock and the timer.
-- It does not matter whether the guest ends, or the process, in the first part, in the second or not
-- at all.
pub cpu_exec_add :
    (c : Config) (a b : ℕ) (s : Machine)
    → c.device ≡ false
    → map_state ((cpu_exec c a >> cpu_exec c b) s) ≡ map_state (cpu_exec c (a + b) s)
unfolding cpu_exec ◌>>=◌
cpu_exec_add c a b s no_device = parts c no_device a b s.nemu_state.state s refl
