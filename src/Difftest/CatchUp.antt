-- ===== src/Difftest/CatchUp.antt =====
-- How the guest catches up with the reference: difftest_skip_dut, and the execution that follows it.
use riscv32_cpu.Base.{
  ℕ, suc, ◌+◌, ◌-◌, ◌<◌, ◌≡◌, ◌≢◌, refl, sym, ◌∙◌, ap, Bool, true, ltb, ◌==◌, arith, ==_iff,
  ne→not_==, lt→ltb,
}
use riscv32_cpu.Fault.{Fault, ok, fault}
use riscv32_cpu.Machine.{running, abort, Machine}
use riscv32_cpu.State.{bind_result, pure, stop_with, ◌>>=◌, ◌>>◌}
use riscv32_cpu.Exec.{exec_round}
use riscv32_cpu.Difftest.{
  Reference, Dut, isa_difftest_checkregs, set_abort, checkregs, exec_times, difftest_skip_dut,
  catch_up, difftest_step, without_devices, on_machine, skip_if_halted, go_on_checked,
  execute_checked,
}

-- A number of rounds from one state to another that keep the machine running, none of which arrives
-- at the place.
pub data Approaches (disassembles : ℕ → ℕ → Bool) (place : ℕ) : ℕ → Machine → Machine → Type 0 where
  start : (s : Machine) → Approaches disassembles place 0 s s
  round :
      {k : ℕ} {s t u : Machine}
      → exec_round (without_devices disassembles) s ≡ ok (tt, t)
      → t.nemu_state.state ≡ running
      → t.cpu.pc ≢ place
      → Approaches disassembles place k t u
      → Approaches disassembles place (suc k) s u

module _ {R : Type 0} (r : Reference R) where
  -- A step that misses, and is not the last that may.
  miss :
      (pc npc n : ℕ) (s : Dut R)
      → s.skip_dut_nr_inst ≡ suc (suc n)
      → (r.to_dut s.ref).pc ≢ npc
      → difftest_step r pc npc s ≡ ok (tt, record s { skip_dut_nr_inst = suc n })
  unfolding difftest_step catch_up ◌>>=◌
  miss pc npc n s count elsewhere =
      let skipping : ltb 0 s.skip_dut_nr_inst ≡ true = lt→ltb _ _ (omega arith) in
      let left : s.skip_dut_nr_inst - 1 ≡ suc n = omega arith in
      rw (skipping, ne→not_== _ _ elsewhere, left, ne→not_== (suc n) 0 (λ e. absurd (omega arith)))
        refl

  last_miss :
      (pc npc : ℕ) (s : Dut R)
      → s.skip_dut_nr_inst ≡ 1
      → (r.to_dut s.ref).pc ≢ npc
      → difftest_step r pc npc s ≡ fault Fault.panic
  unfolding difftest_step catch_up stop_with ◌>>=◌
  last_miss pc npc s count elsewhere =
      let skipping : ltb 0 s.skip_dut_nr_inst ≡ true = lt→ltb _ _ (omega arith) in
      let left : s.skip_dut_nr_inst - 1 ≡ 0 = omega arith in
      rw (skipping, ne→not_== _ _ elsewhere, left) refl

  -- The state after the comparison, which always finds a difference.
  abbrev aborted : Dut R → ℕ → Dut R
  aborted s place = record s {
    machine = record (s.machine) {
      nemu_state = record (s.machine.nemu_state) { state = abort; halt_pc = place };
    };
    skip_dut_nr_inst = 0;
  }

  hit :
      (pc npc n : ℕ) (s : Dut R)
      → s.skip_dut_nr_inst ≡ suc n
      → (r.to_dut s.ref).pc ≡ npc
      → difftest_step r pc npc s ≡ ok (tt, aborted s npc)
  unfolding difftest_step catch_up checkregs set_abort isa_difftest_checkregs ◌>>=◌
  hit pc npc n s count here =
      let skipping : ltb 0 s.skip_dut_nr_inst ≡ true = lt→ltb _ _ (omega arith) in
      let same : ((r.to_dut s.ref).pc == npc) ≡ true = (==_iff _ _).1 here in
      rw (skipping, same) refl

  module _ (disassembles : ℕ → ℕ → Bool) where
    -- What is left of the loop after a round that keeps the machine running.
    checked_round :
        (n : ℕ) (s : Dut R) (t : Machine)
        → exec_round (without_devices disassembles) s.machine ≡ ok (tt, t)
        → t.nemu_state.state ≡ running
        → execute_checked r disassembles (suc n) s
          ≡ bind_result
              (difftest_step r s.machine.cpu.pc t.cpu.pc (record s { machine = t }))
              (λ _ u.
                go_on_checked r disassembles u.machine.nemu_state.state
                  (execute_checked r disassembles n)
                  u)
    unfolding execute_checked on_machine skip_if_halted ◌>>=◌
    checked_round n s t ran goes = rw (ran, goes) refl

    missed_round :
        (n left : ℕ) (s : Dut R) (t : Machine)
        → exec_round (without_devices disassembles) s.machine ≡ ok (tt, t)
        → t.nemu_state.state ≡ running
        → t.cpu.pc ≢ (r.to_dut s.ref).pc
        → s.skip_dut_nr_inst ≡ suc (suc left)
        → execute_checked r disassembles (suc n) s
          ≡ execute_checked r disassembles n (record s { machine = t; skip_dut_nr_inst = suc left })
    unfolding go_on_checked
    missed_round n left s t ran goes elsewhere count =
        let passed =
          miss s.machine.cpu.pc t.cpu.pc left (record s { machine = t }) count
            (λ e. elsewhere (sym e)) in
        checked_round n s t ran goes ∙ rw (passed, goes) refl

    -- The whole run from a state that skips; of `d` the reference and its flag matter.
    arrive :
        (d : Dut R) (v : Machine) (n left : ℕ) {k : ℕ} {m u : Machine}
        → Approaches disassembles (r.to_dut d.ref).pc k m u
        → (count : ℕ) → count ≡ k + suc left
        → exec_round (without_devices disassembles) u ≡ ok (tt, v)
        → v.nemu_state.state ≡ running
        → v.cpu.pc ≡ (r.to_dut d.ref).pc
        → execute_checked r disassembles
            (k + suc n)
            (record d { machine = m; skip_dut_nr_inst = count })
          ≡ ok (tt, aborted (record d { machine = v }) (r.to_dut d.ref).pc)
    unfolding go_on_checked pure
    arrive d v n left (start m) count c ran goes here =
        let compared =
          hit m.cpu.pc v.cpu.pc left (record d { machine = v; skip_dut_nr_inst = count })
            (omega arith) (sym here) in
        let sum : 0 + suc n ≡ suc n = omega arith in
        let s = record d { machine = m; skip_dut_nr_inst = count } in
        ap (λ a. execute_checked r disassembles a s) sum
        ∙ checked_round n s v ran goes
        ∙ rw (compared, here) refl
    arrive d v n left {k = suc k} {m = m} (round {t = t} first on elsewhere later) count c ran goes
          here =
        let sum : suc k + suc n ≡ suc (k + suc n) = omega arith in
        let s = record d { machine = m; skip_dut_nr_inst = count } in
        ap (λ a. execute_checked r disassembles a s) sum
        ∙ missed_round (k + suc n) (k + left) s t first on elsewhere (omega arith)
        ∙ arrive d v n left later (suc (k + left)) (omega arith) ran goes here

-- Let no skip be under way, and let the reference step `nr_ref` times, to a program counter that the
-- guest has `nr_dut` instructions to reach. Let the guest, without devices, execute `k` instructions that
-- do not arrive there, fewer than `nr_dut`, and then one that does, and keep running. Then the execution
-- of these and of any further instructions compares nothing before it arrives; there
-- isa_difftest_checkregs, which always reports a difference, ends the run: it returns after this
-- instruction, in NEMU_ABORT at that program counter, with the skip ended.
pub difftest_skip_dut-arrives :
    {R : Type 0} (r : Reference R) (disassembles : ℕ → ℕ → Bool) (nr_ref nr_dut k n : ℕ) (s : Dut R)
    (u v : Machine)
    → s.skip_dut_nr_inst ≡ 0
    → k < nr_dut
    → Approaches disassembles (r.to_dut (exec_times r nr_ref s.ref)).pc k s.machine u
    → exec_round (without_devices disassembles) u ≡ ok (tt, v)
    → v.nemu_state.state ≡ running
    → v.cpu.pc ≡ (r.to_dut (exec_times r nr_ref s.ref)).pc
    → (difftest_skip_dut r nr_ref nr_dut >> execute_checked r disassembles (k + suc n)) s
      ≡ ok (
        tt,
        record s {
          machine = record v {
            nemu_state = record (v.nemu_state) {
              state = abort;
              halt_pc = (r.to_dut (exec_times r nr_ref s.ref)).pc;
            };
          };
          ref = exec_times r nr_ref s.ref;
          skip_dut_nr_inst = 0;
        },
      )
unfolding difftest_skip_dut ◌>>=◌
difftest_skip_dut-arrives r disassembles nr_ref nr_dut k n s u v idle room run ran goes here =
    let skipping = record s {
      skip_dut_nr_inst = s.skip_dut_nr_inst + nr_dut;
      ref = exec_times r nr_ref s.ref;
    } in
    arrive r disassembles skipping v n (nr_dut - suc k) run (s.skip_dut_nr_inst + nr_dut)
      (omega arith) ran goes here
