-- ===== src/Exec/Settled.antt =====
-- The state machine of the emulator at the edges of cpu_exec.
use riscv32_cpu.Base.{ℕ, ◌≡◌, ◌≢◌, refl}
use riscv32_cpu.Fault.{Result, ok, fault}
use riscv32_cpu.Machine.{
  RunState, running, stop, end, abort, quit, Machine, M, pure, get, bind_result, ◌>>=◌,
}
use riscv32_cpu.State.Gives.{Any, Holds}
use riscv32_cpu.Exec.{Config, set_state, finish, timed_run, cpu_exec_from, cpu_exec}

-- A state in which the emulator does not run.
abbrev pub IsSettled : Machine → Type 0
IsSettled s = s.nemu_state.state ≢ running

Settles : {A : Type 0} → M A → Type 0
Settles m = (s : Machine) → Holds IsSettled Any (m s)

-- Only the last action of a sequence matters.
Settles-bind_result :
    {A B : Type 0} (r : Result (A × Machine)) (k : A → M B)
    → ((a : A) → Settles (k a))
    → Holds IsSettled Any (bind_result r k)
unfolding Settles
Settles-bind_result (ok (a, s)) k h = h a s
Settles-bind_result (fault f) k h = tt

Settles-bind :
    {A B : Type 0} (m : M A) (k : A → M B) → ((a : A) → Settles (k a)) → Settles (m >>= k)
unfolding ◌>>=◌
Settles-bind m k h = unfold Settles in λ s. Settles-bind_result (m s) k h

module _ (c : Config) where
  finish-Settles :
      (state : RunState) (s : Machine)
      → s.nemu_state.state ≡ state
      → Holds IsSettled Any (finish c state s)
  unfolding finish pure set_state ◌>>=◌
  finish-Settles running s e = ((λ h. cc), tt)
  finish-Settles stop s e = ((λ h. cc), tt)
  finish-Settles end s e = ((λ h. cc), tt)
  finish-Settles abort s e = ((λ h. cc), tt)
  finish-Settles quit s e = ((λ h. cc), tt)

  last_part : Settles (get >>= λ s. finish c s.nemu_state.state)
  unfolding Settles ◌>>=◌
  last_part s = finish-Settles s.nemu_state.state s refl

  timed_run-Settles : (n : ℕ) → Settles (timed_run c n)
  unfolding timed_run
  timed_run-Settles n = Settles-bind _ _ λ _.
      Settles-bind _ _
        λ _. Settles-bind _ _ λ _. Settles-bind _ _ λ _. Settles-bind _ _ λ _. last_part

  cpu_exec_from-Settles :
      (state : RunState) (n : ℕ) (s : Machine)
      → s.nemu_state.state ≡ state
      → Holds IsSettled Any (cpu_exec_from c state n s)
  unfolding cpu_exec_from pure Settles
  cpu_exec_from-Settles running n s e = timed_run-Settles n s
  cpu_exec_from-Settles stop n s e = timed_run-Settles n s
  cpu_exec_from-Settles end n s e = ((λ h. cc), tt)
  cpu_exec_from-Settles abort n s e = ((λ h. cc), tt)
  cpu_exec_from-Settles quit n s e = ((λ h. cc), tt)

  returned :
      (r : Result (Unit {0} × Machine)) (t : Machine)
      → r ≡ ok (tt, t)
      → Holds IsSettled Any r
      → IsSettled t
  returned r t e h = (rw e at h).0

  -- Whenever cpu_exec returns, the emulator is not left running.
  pub cpu_exec-IsSettled : (n : ℕ) (s t : Machine) → cpu_exec c n s ≡ ok (tt, t) → IsSettled t
  cpu_exec-IsSettled n s t e =
      returned (cpu_exec c n s) t e
        (unfold cpu_exec ◌>>=◌ in cpu_exec_from-Settles s.nemu_state.state n s refl)

  from_halted :
      (n : ℕ) (state : RunState) (s : Machine)
      → state ≢ running
      → state ≢ stop
      → cpu_exec_from c state n s ≡ ok (tt, s)
  unfolding cpu_exec_from pure
  from_halted n running s h k = elim (h refl) [ ]
  from_halted n stop s h k = elim (k refl) [ ]
  from_halted n end s h k = refl
  from_halted n abort s h k = refl
  from_halted n quit s h k = refl

  -- A guest that has ended stays as it is: after a trap, an abort or a quit, cpu_exec executes
  -- nothing and returns the state unchanged, whatever the count.
  pub cpu_exec-halted :
      (n : ℕ) (s : Machine) → IsSettled s → s.nemu_state.state ≢ stop → cpu_exec c n s ≡ ok (tt, s)
  unfolding cpu_exec ◌>>=◌
  cpu_exec-halted n s settled ended = from_halted n s.nemu_state.state s settled ended
