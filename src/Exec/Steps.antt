-- ===== src/Exec/Steps.antt =====
-- One round of the loop of execute: an instruction of the ISA manual, and what the loop goes on with.
use riscv32_cpu.Base.{◌+◌, ◌≡◌, ◌≢◌, ◌⊎◌, inl, inr, refl, true, false}
use riscv32_cpu.Fault.{ok}
use riscv32_cpu.Word.{u32, u64}
use riscv32_cpu.Machine.{RunState, running, stop, end, abort, quit, Machine, M, pure, ◌>>=◌}
use riscv32_cpu.Isa.Riscv32.Spec.{Inst, encode, effect, Fetches}
use riscv32_cpu.Isa.Riscv32.Run.{isa_exec_once-encode}
use riscv32_cpu.Exec.{Config, set_pc, count_inst, exec_once, exec_round, go_on}

-- One instruction of the manual: its effect, the next program counter, and the count.
abbrev pub step : Inst → Machine → Machine
step i s =
    let t = effect i s in
    record t {
      cpu = record (t.cpu) { pc = u32 (s.cpu.pc + 4) };
      g_nr_guest_inst = u64 (s.g_nr_guest_inst + 1);
    }

-- An instruction changes neither the counter nor, but for the register, the program counter.
effect-count : (i : Inst) (s : Machine) → (effect i s).g_nr_guest_inst ≡ s.g_nr_guest_inst
unfolding effect
effect-count (Inst.auipc imm rd) s = refl
effect-count (Inst.lbu imm rs1 rd) s = refl
effect-count (Inst.sb imm rs2 rs1) s = refl
effect-count Inst.ebreak s = refl

-- Where the next word encodes an instruction that the trace's disassembler knows, a round of the
-- loop is one step of that instruction.
pub exec_round-step :
    (c : Config) (i : Inst) (s : Machine)
    → Fetches i s
    → c.disassembles s.cpu.pc (encode i) ≡ true
    → exec_round c s ≡ ok (tt, step i s)
unfolding exec_round exec_once set_pc count_inst ◌>>=◌
exec_round-step c i s f known =
    rw (isa_exec_once-encode c.device i s f, known, effect-count i s) refl

pub is_running? : (state : RunState) → (state ≡ running) ⊎ (state ≢ running)
is_running? running = inl refl
is_running? stop = inr (λ e. cc)
is_running? end = inr (λ e. cc)
is_running? abort = inr (λ e. cc)
is_running? quit = inr (λ e. cc)

module _ (c : Config) (no_device : c.device ≡ false) where
  pub go_on-running :
      (state : RunState) (rest : M (Unit {0})) (s : Machine)
      → state ≡ running
      → go_on c state rest s ≡ rest s
  unfolding go_on ◌>>=◌
  go_on-running state rest s e = rw (e, no_device) refl

  pub go_on-halted :
      (state : RunState) (rest : M (Unit {0})) (s : Machine)
      → state ≢ running
      → go_on c state rest s ≡ ok (tt, s)
  unfolding go_on pure
  go_on-halted running rest s h = elim (h refl) [ ]
  go_on-halted stop rest s h = refl
  go_on-halted end rest s h = refl
  go_on-halted abort rest s h = refl
  go_on-halted quit rest s h = refl
