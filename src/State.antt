-- ===== src/State.antt =====
-- A function over global variables of type `S`: it returns a value and the new state, or ends the
-- process with a fault.
pub mod Gives
pub mod Total
use riscv32_cpu.Base.{Bool, true, false}
use riscv32_cpu.Fault.{Fault, Result, ok, fault}

abbrev pub State : Type 0 → Type 0 → Type 0
State S A = S → Result (A × S)

module _ {S : Type 0} where
  unfoldable pub pure : {A : Type 0} → A → State S A
  pure a s = ok (a, s)

  unfoldable pub stop_with : {A : Type 0} → Fault → State S A
  stop_with f s = fault f

  unfoldable pub lift : {A : Type 0} → Result A → State S A
  lift (ok a) s = ok (a, s)
  lift (fault f) s = fault f

  unfoldable pub get : State S S
  get s = ok (s, s)

  unfoldable pub put : S → State S (Unit {0})
  put t s = ok (tt, t)

  -- assert(cond)
  unfoldable pub assert : Bool → State S (Unit {0})
  assert true s = ok (tt, s)
  assert false s = fault Fault.assertion

  abbrev pub bind_result : {A B : Type 0} → Result (A × S) → (A → State S B) → Result (B × S)
  bind_result (ok (a, s)) k = k a s
  bind_result (fault f) k = fault f

-- Opening this opens the actions above too.
infixl 5 ◌>>=◌ ◌>>◌
unfoldable pub ◌>>=◌ : {S A B : Type 0} → State S A → (A → State S B) → State S B
unfolding pure stop_with lift get put assert
◌>>=◌ m k s = bind_result (m s) k

abbrev pub ◌>>◌ : {S B : Type 0} → State S (Unit {0}) → State S B → State S B
m >> k = m >>= λ _. k
