-- ===== src/Device/Alarm.antt =====
-- nemu/src/device/alarm.c: the handlers of the alarm. init_alarm is in
-- Device/Init. A handler is a function over a state `S`.
use riscv32_cpu.Base.{
  ℕ, zero, suc, ◌+◌, ◌≤◌, ◌<◌, ◌≡◌, refl, ◌∙◌, ap, ap₂, true, List, [], ◌∷◌, length, ltb, ◌==◌,
  if◌then◌else◌, arith, ==_self, ne→not_==,
}
use mathlib.Core.Path.{subst}
use riscv32_cpu.Fault.{Fault, Result, ok, fault}
use riscv32_cpu.State.{State, pure, ◌>>◌}

abbrev pub max_handler : ℕ
max_handler = 8

-- alarm_handler_t
abbrev pub AlarmHandler : Type 0 → Type 0
AlarmHandler S = State S (Unit {0})

pub record Alarm (S : Type 0) : Type 0 where
  pub handler : ℕ → AlarmHandler S
  pub idx : ℕ

module _ {S : Type 0} where
  unfoldable pub add_alarm_handle : AlarmHandler S → Alarm S → Result (Alarm S)
  add_alarm_handle h a =
      if ltb a.idx max_handler
      then ok (record { handler = λ i. if i == a.idx then h else a.handler i; idx = a.idx + 1 })
      else fault Fault.assertion

  -- The loop from `i` on, with `left` rounds left.
  unfoldable pub run_handlers : ℕ → ℕ → Alarm S → AlarmHandler S
  run_handlers zero i a = pure tt
  run_handlers (suc left) i a = a.handler i >> run_handlers left (i + 1) a

  unfoldable pub alarm_sig_handler : Alarm S → AlarmHandler S
  unfolding run_handlers
  alarm_sig_handler a = run_handlers a.idx 0 a

  abbrev pub bind_alarm : Result (Alarm S) → (Alarm S → Result (Alarm S)) → Result (Alarm S)
  bind_alarm (ok a) k = k a
  bind_alarm (fault f) k = fault f

  -- Registering a list of handlers, one after the other, and running them so.
  abbrev pub add_all : List (AlarmHandler S) → Alarm S → Result (Alarm S)
  add_all [] a = ok a
  add_all (h ∷ later) a = bind_alarm (add_alarm_handle h a) (add_all later)

  abbrev pub run_all : List (AlarmHandler S) → AlarmHandler S
  run_all [] = pure tt
  run_all (h ∷ later) = h >> run_all later

  -- The table holds a list from an index on.
  abbrev Table : Alarm S → ℕ → List (AlarmHandler S) → Type 0
  Table a i [] = Unit
  Table a i (h ∷ later) = (a.handler i ≡ h) × Table a (i + 1) later

  registered :
      (hs : List (AlarmHandler S)) (a : Alarm S)
      → a.idx + length hs ≤ max_handler
      → (b : Alarm S) × (add_all hs a ≡ ok b)
        × (b.idx ≡ a.idx + length hs)
        × ((j : ℕ) → j < a.idx → b.handler j ≡ a.handler j)
        × Table b a.idx hs
  unfolding add_alarm_handle
  registered [] a room = (a, refl, omega arith, (λ j below. refl), tt)
  registered (h ∷ later) a room =
      let next : Alarm S = record {
        handler = λ i. if i == a.idx then h else a.handler i;
        idx = a.idx + 1;
      } in
      let taken : ltb a.idx max_handler ≡ true = ground arith in
      let rest = registered later next (omega arith) in
      let here : next.handler a.idx ≡ h = rw (==_self a.idx) refl in
      (
        rest.0,
        rw taken rest.1,
        omega (arith, rest.2),
        (λ j below.
            rest.3 j (omega arith) ∙ rw (ne→not_== j a.idx (λ e. absurd (omega arith))) refl),
        (rest.3 a.idx (omega arith) ∙ here, rest.4),
      )

  run_registered :
      (hs : List (AlarmHandler S)) (a : Alarm S) (i : ℕ)
      → Table a i hs
      → run_handlers (length hs) i a ≡ run_all hs
  unfolding run_handlers
  run_registered [] a i h = refl
  run_registered (first ∷ later) a i h =
      ap₂ (λ m k. m >> k) h.0 (run_registered later a (i + 1) h.1)

-- Up to eight handlers can be registered from the start, and the signal then runs each of them once, in
-- the order in which they were registered.
pub alarm_sig_handler-add_all :
    {S : Type 0} (hs : List (AlarmHandler S)) (a : Alarm S)
    → a.idx ≡ 0
    → length hs ≤ max_handler
    → (b : Alarm S) × (add_all hs a ≡ ok b) × (alarm_sig_handler b ≡ run_all hs)
unfolding alarm_sig_handler
alarm_sig_handler-add_all hs a start room =
    let added = registered hs a (omega arith) in
    let count : added.0.idx ≡ length hs = omega (arith, added.2) in
    let table : Table added.0 0 hs = subst (λ i. Table added.0 i hs) start added.4 in
    (added.0, added.1, ap (λ n. run_handlers n 0 added.0) count ∙ run_registered hs added.0 0 table)
