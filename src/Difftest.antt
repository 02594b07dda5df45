-- ===== src/Difftest.antt =====
-- nemu/src/cpu/difftest/dut.c with CONFIG_DIFFTEST on: the checks against a reference emulator, which
-- is a library outside the repository, and the loop of execute in nemu/src/cpu/cpu-exec.c with them. The
-- loading of the library by init_difftest is left out.
pub mod CatchUp
use riscv32_cpu.Base.{ℕ, zero, suc, ◌+◌, ◌-◌, Bool, true, false, ltb, ◌==◌, if◌then◌else◌}
use riscv32_cpu.Fault.{Fault, Result, ok, fault}
use riscv32_cpu.Machine.{RunState, running, abort, Cpu, NemuState, Machine, M}
use riscv32_cpu.Exec.{Config, exec_round}
use riscv32_cpu.State.{State, pure, stop_with, get, put, ◌>>=◌, ◌>>◌}

-- The reference: difftest_exec(1), and the two directions of difftest_regcpy.
pub record Reference (R : Type 0) : Type 0 where
  pub exec : R → R
  pub to_dut : R → Cpu
  pub to_ref : Cpu → R → R

-- nemu/src/isa/riscv32/difftest/dut.c
unfoldable pub isa_difftest_checkregs : Cpu → Cpu → ℕ → Bool
isa_difftest_checkregs cpu ref_r pc = false

-- The emulator, the reference, and the two static variables. The count of instructions to skip,
-- an `int`, is not negative, as the callers' counts are not.
pub record Dut (R : Type 0) : Type 0 where
  pub machine : Machine
  pub ref : R
  pub is_skip_ref : Bool
  pub skip_dut_nr_inst : ℕ

module _ {R : Type 0} (r : Reference R) where
  unfoldable pub difftest_skip_ref : State (Dut R) (Unit {0})
  difftest_skip_ref = do s ← get; put (record s { is_skip_ref = true; skip_dut_nr_inst = 0 })

  unfoldable pub exec_times : ℕ → R → R
  exec_times zero ref = ref
  exec_times (suc n) ref = exec_times n (r.exec ref)

  unfoldable pub difftest_skip_dut : ℕ → ℕ → State (Dut R) (Unit {0})
  unfolding exec_times
  difftest_skip_dut nr_ref nr_dut = do
    s ← get
    put (record s { skip_dut_nr_inst = s.skip_dut_nr_inst + nr_dut; ref = exec_times nr_ref s.ref })

  unfoldable pub set_abort : ℕ → State (Dut R) (Unit {0})
  set_abort pc = do
    s ← get
    put (record s {
      machine = record (s.machine) {
        nemu_state = record (s.machine.nemu_state) { state = abort; halt_pc = pc };
      };
    })

  -- isa_reg_display only prints.
  unfoldable pub checkregs : Cpu → ℕ → State (Dut R) (Unit {0})
  unfolding set_abort isa_difftest_checkregs
  checkregs ref_r pc = do
    s ← get
    if isa_difftest_checkregs s.machine.cpu ref_r pc then pure tt else set_abort pc

  -- An instruction of a packing, before the guest has caught up.
  unfoldable pub catch_up : ℕ → ℕ → State (Dut R) (Unit {0})
  unfolding checkregs
  catch_up pc npc = do
    s ← get
    if (r.to_dut s.ref).pc == npc
        then (put (record s { skip_dut_nr_inst = 0 }) >> checkregs (r.to_dut s.ref) npc)
        else (put (record s { skip_dut_nr_inst = s.skip_dut_nr_inst - 1 })
            >> (if s.skip_dut_nr_inst - 1 == 0 then stop_with Fault.panic else pure tt))

  unfoldable pub skip_check : State (Dut R) (Unit {0})
  skip_check = do
    s ← get
    put (record s { ref = r.to_ref s.machine.cpu s.ref; is_skip_ref = false })

  unfoldable pub exec_check : ℕ → State (Dut R) (Unit {0})
  unfolding checkregs
  exec_check pc = do
    s ← get
    put (record s { ref = r.exec s.ref })
    t ← get
    checkregs (r.to_dut t.ref) pc

  unfoldable pub difftest_step : ℕ → ℕ → State (Dut R) (Unit {0})
  unfolding catch_up skip_check exec_check
  difftest_step pc npc = do
    s ← get
    if ltb 0 s.skip_dut_nr_inst
        then catch_up pc npc
        else (if s.is_skip_ref then skip_check else exec_check pc)

-- The configuration of a build without devices.
abbrev pub without_devices : (ℕ → ℕ → Bool) → Config
without_devices disassembles = record { device = false; disassembles = disassembles }

module _ {R : Type 0} where
  abbrev with_machine : Dut R → Result (Unit {0} × Machine) → Result (Unit {0} × Dut R)
  with_machine s (ok (_, t)) = ok (tt, record s { machine = t })
  with_machine s (fault f) = fault f

  -- A function of the emulator, which sees nothing of the checks.
  unfoldable pub on_machine : M (Unit {0}) → State (Dut R) (Unit {0})
  on_machine m s = with_machine s (m s.machine)

module _ {R : Type 0} (r : Reference R) (disassembles : ℕ → ℕ → Bool) where
  -- set_nemu_state calls difftest_skip_ref. Without devices this is its only caller; an instruction
  -- calls set_nemu_state, once, exactly if it ends NEMU_RUNNING, in which execute starts each one.
  unfoldable pub skip_if_halted : RunState → State (Dut R) (Unit {0})
  unfolding difftest_skip_ref
  skip_if_halted running = pure tt
  skip_if_halted _ = difftest_skip_ref r

  unfoldable pub go_on_checked : RunState → State (Dut R) (Unit {0}) → State (Dut R) (Unit {0})
  go_on_checked running rest = rest
  go_on_checked _ rest = pure tt

  -- execute in a build with CONFIG_DIFFTEST and without devices, from a running state.
  unfoldable pub execute_checked : ℕ → State (Dut R) (Unit {0})
  unfolding on_machine skip_if_halted difftest_step go_on_checked
  execute_checked zero = pure tt
  execute_checked (suc n) =
      let rest = execute_checked n in
      do
        s ← get
        on_machine (exec_round (without_devices disassembles))
        t ← get
        skip_if_halted t.machine.nemu_state.state
        difftest_step r s.machine.cpu.pc t.machine.cpu.pc
        u ← get
        go_on_checked u.machine.nemu_state.state rest
