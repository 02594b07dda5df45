-- ===== src/Fault.antt =====
-- How a call ends: with a value, or with the end of the process. Assert, panic and TODO of
-- nemu/include/debug.h and the C library's assert print a message and abort.
use riscv32_cpu.Base.{ℕ}

pub data Fault : Type 0 where
  -- assert(cond) and Assert(cond, ...) with a false condition
  assertion : Fault
  -- panic(...) and TODO(), with the call's own data where it prints some
  panic : Fault
  out_of_bound : ℕ → Fault
  overlap : Fault
  -- an access outside a host array, which C leaves undefined
  undefined : Fault

pub data Result {ℓ} (A : Type ℓ) : Type ℓ where
  ok : A → Result A
  fault : Fault → Result A
