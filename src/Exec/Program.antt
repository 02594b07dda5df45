-- ===== src/Exec/Program.antt =====
-- The loop of execute on a guest's program, by the instructions of the ISA manual, for a build
-- without devices.
use riscv32_cpu.Base.{ℕ, suc, ◌≡◌, ◌≢◌, refl, ◌∙◌, true, false}
use riscv32_cpu.Fault.{ok}
use riscv32_cpu.Machine.{running, Machine, pure, ◌>>=◌}
use riscv32_cpu.Isa.Riscv32.Spec.{Inst, encode, Fetches}
use riscv32_cpu.Exec.{Config, execute}
use riscv32_cpu.Exec.Steps.{step, exec_round-step, go_on-running, go_on-halted}

-- A run of the manual's instructions: each is fetched from the memory of its state, and the run ends
-- after as many as the number says, or earlier with one that halts the machine.
pub data Runs (c : Config) : ℕ → Machine → Machine → Type 0 where
  over : (s : Machine) → Runs c 0 s s
  halts :
      {n : ℕ} {s : Machine} (i : Inst)
      → Fetches i s
      → c.disassembles s.cpu.pc (encode i) ≡ true
      → (step i s).nemu_state.state ≢ running
      → Runs c (suc n) s (step i s)
  continues :
      {n : ℕ} {s t : Machine} (i : Inst)
      → Fetches i s
      → c.disassembles s.cpu.pc (encode i) ≡ true
      → (step i s).nemu_state.state ≡ running
      → Runs c n (step i s) t
      → Runs c (suc n) s t

-- Let the build have no devices, and let the ISA manual's auipc, lbu, sb and ebreak lead from one
-- state to another, in `n` steps that keep the machine running, or in at most `n` of which the last
-- alone halts it. Before each step the memory holds the instruction at the program counter, the
-- disassembler knows it, the byte that lbu or sb accesses lies in the memory, and the zero register is
-- zero. Then execute of `n` returns with exactly that state.
pub execute-Runs :
    (c : Config) (n : ℕ) (s t : Machine)
    → c.device ≡ false
    → Runs c n s t
    → execute c n s ≡ ok (tt, t)
unfolding execute pure ◌>>=◌
execute-Runs c _ s _ no_device (over _) = refl
execute-Runs c (suc n) s _ no_device (halts i fetches known halted) =
    rw (exec_round-step c i s fetches known)
      (go_on-halted c no_device (step i s).nemu_state.state (execute c n) (step i s) halted)
execute-Runs c (suc n) s t no_device (continues i fetches known goes run) =
    rw (exec_round-step c i s fetches known) (
      go_on-running c no_device (step i s).nemu_state.state (execute c n) (step i s) goes
      ∙ execute-Runs c n (step i s) t no_device run)
