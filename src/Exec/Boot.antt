-- ===== src/Exec/Boot.antt =====
-- The built-in image runs to its good trap.
use riscv32_cpu.Base.{
  ℕ, suc, ◌+◌, ◌-◌, ◌^◌, ◌≤◌, ◌≡◌, refl, ap, Bool, true, false, ◌==◌, if◌then◌else◌, arith,
}
use riscv32_cpu.Fault.{ok}
use riscv32_cpu.Host.{load, store}
use riscv32_cpu.Machine.{update, running, end, stop, Clock, Machine, pure, ◌>>=◌, ◌>>◌}
use riscv32_cpu.Memory.Range.{guest_to_host}
use riscv32_cpu.Word.{u64}
use riscv32_cpu.Device.Timer.{get_time_internal, set_boot_time, get_time}
use riscv32_cpu.Isa.Riscv32.Spec.{auipc, lbu, sb, ebreak, encode, effect, Fetches}
use riscv32_cpu.Isa.Riscv32.Boot.{img, copy_words, restart, init_isa}
use riscv32_cpu.Exec.{Config, set_state, add_time, finish, timed_run, cpu_exec, is_exit_status_bad}
use riscv32_cpu.Exec.Steps.{step}
use riscv32_cpu.Exec.Program.{Runs, halts, continues, execute-Runs}

-- The disassembler knows the four instructions of the image.
abbrev pub KnowsImage : Config → Type 0
KnowsImage c =
    (c.disassembles 0x80000000 (encode (auipc 0 5)) ≡ true)
    × (c.disassembles 0x80000004 (encode (sb 16 0 5)) ≡ true)
    × (c.disassembles 0x80000008 (encode (lbu 16 5 10)) ≡ true)
    × (c.disassembles 0x8000000c (encode ebreak) ≡ true)

unfoldable pub started : Machine → Machine
started s = record s {
  cpu = record { gpr = update s.cpu.gpr 0 0; pc = 0x80000000 };
  pmem = copy_words s.pmem 0 img;
}

pub init_isa_lem : (s : Machine) → init_isa s ≡ ok (tt, started s)
unfolding init_isa restart guest_to_host ◌>>=◌ started
init_isa_lem s = refl

unfoldable pub after_auipc : Machine → Machine
after_auipc s = step (auipc 0 5) (started s)

unfoldable pub after_sb : Machine → Machine
after_sb s = step (sb 16 0 5) (after_auipc s)

after_lbu : Machine → Machine
after_lbu s = step (lbu 16 5 10) (after_sb s)

pub after_ebreak : Machine → Machine
after_ebreak s = step ebreak (after_lbu s)

pub Fetches-auipc : (s : Machine) → Fetches (auipc 0 5) (started s)
unfolding started encode load store copy_words update
Fetches-auipc s = record {
  inside = (omega arith, omega arith);
  word = refl;
  fields = (omega arith, omega arith);
  reaches = tt;
  zero_register = refl;
}

pub Fetches-sb : (s : Machine) → Fetches (sb 16 0 5) (after_auipc s)
unfolding started after_auipc effect encode load store copy_words update
Fetches-sb s = record {
  inside = (omega arith, omega arith);
  word = refl;
  fields = (omega arith, omega arith, omega arith);
  reaches = (omega arith, omega arith);
  zero_register = refl;
}

Fetches-lbu : (s : Machine) → Fetches (lbu 16 5 10) (after_sb s)
unfolding started after_auipc after_sb effect encode load store copy_words update
Fetches-lbu s = record {
  inside = (omega arith, omega arith);
  word = refl;
  fields = (omega arith, omega arith, omega arith);
  reaches = (omega arith, omega arith);
  zero_register = refl;
}

Fetches-ebreak : (s : Machine) → Fetches ebreak (after_lbu s)
unfolding started after_auipc after_sb after_lbu effect encode load store copy_words update
Fetches-ebreak s = record {
  inside = (omega arith, omega arith);
  word = refl;
  fields = tt;
  reaches = tt;
  zero_register = refl;
}

halted_lem :
    (s : Machine)
    → (after_ebreak s).nemu_state ≡ record { state = end; halt_pc = 0x8000000c; halt_ret = 0 }
unfolding started after_auipc after_sb after_lbu after_ebreak effect store copy_words update
halted_lem s = refl

stamp :
    (b : Bool) (s : Machine)
    → (k : Clock) × ((if b then (get_time_internal >>= set_boot_time) else pure tt) s
        ≡ ok (tt, record s { clock = k }))
unfolding get_time_internal set_boot_time ◌>>=◌
stamp true s = (_, refl)
stamp false s = (s.clock, refl)

-- Asking for the time returns, and changes nothing but the clock.
pub get_time_lem :
    (s : Machine) → (now : ℕ) × (k : Clock) × (get_time s ≡ ok (now, record s { clock = k }))
unfolding get_time get_time_internal ◌>>=◌
get_time_lem s =
    let stamped = stamp (s.clock.boot_time == 0) s in
    let k = stamped.0 in
    (
      u64 (u64 (k.readings k.calls) + 2 ^ 64 - k.boot_time),
      record k { calls = k.calls + 1 },
      rw stamped.1 refl,
    )

module _ (c : Config) (known : KnowsImage c) where
  -- The image's four instructions are a run from the loaded image to its trap.
  pub image_run :
      (n : ℕ) (s : Machine)
      → s.nemu_state.state ≡ running
      → Runs c (suc (suc (suc (suc n)))) (started s) (after_ebreak s)
  unfolding started after_auipc after_sb after_lbu after_ebreak effect
  image_run n s goes = continues (auipc 0 5) (Fetches-auipc s) known.0 goes (
      continues (sb 16 0 5) (Fetches-sb s) known.1 goes (
        continues (lbu 16 5 10) (Fetches-lbu s) known.2 goes
          (halts ebreak (Fetches-ebreak s) known.3 (λ e. cc))))

module _ (c : Config) (no_device : c.device ≡ false) (known : KnowsImage c) where
  module _ (s : Machine) where
    -- The states between the parts of cpu_exec.
    timed : Machine
    timed =
        let on = record (started s) { nemu_state = record (s.nemu_state) { state = running } } in
        record s {
          nemu_state = record (s.nemu_state) { state = running };
          clock = (get_time_lem on).1;
        }

    ended : Machine
    ended =
        let t = after_ebreak timed in
        record t {
          clock = (get_time_lem t).1;
          g_timer = u64 (
              t.g_timer
              + u64 (
                  (get_time_lem t).0
                  + 2 ^ 64
                  - (get_time_lem (record (started s) {
                    nemu_state = record (s.nemu_state) { state = running };
                  })).0));
        }

    cpu_exec_lem :
        (n : ℕ)
        → s.nemu_state.state ≡ stop
        → cpu_exec c (suc (suc (suc (suc n)))) (started s) ≡ ok (tt, ended)
    unfolding cpu_exec timed_run set_state add_time finish ◌>>=◌ started ended timed
    cpu_exec_lem n fresh =
        let on = record (started s) { nemu_state = record (s.nemu_state) { state = running } } in
        let t = after_ebreak timed in
        rw
          (
            fresh,
            (get_time_lem on).2,
            execute-Runs c (suc (suc (suc (suc n)))) (started timed) t no_device
                (image_run c known n timed refl),
            (get_time_lem t).2,
            ap (λ w. w.state) (halted_lem timed),
          )
          refl

-- Let the machine be freshly started, the build have no devices, and the disassembler know the
-- image's four instructions. Then loading the built-in image and executing any four or more
-- instructions returns, whatever the memory, the registers and the clock held: the guest has hit the
-- good trap at 0x8000000c, and the emulator's exit status is good.
pub init_isa-cpu_exec :
    (c : Config) (n : ℕ) (s : Machine)
    → c.device ≡ false
    → KnowsImage c
    → 4 ≤ n
    → s.nemu_state.state ≡ stop
    → (t : Machine) × ((init_isa >> cpu_exec c n) s ≡ ok (tt, t))
      × (t.nemu_state ≡ record { state = end; halt_pc = 0x8000000c; halt_ret = 0 })
      × (is_exit_status_bad t ≡ false)
unfolding ◌>>=◌
init_isa-cpu_exec c n s no_device known enough fresh =
    let m = n - 4 in
    let count : n ≡ suc (suc (suc (suc m))) = omega arith in
    let t = ended c no_device known s in
    let trapped : t.nemu_state ≡ record { state = end; halt_pc = 0x8000000c; halt_ret = 0 } =
      unfold ended in halted_lem (timed c no_device known s) in
    (
      t,
      rw (init_isa_lem s, count) (cpu_exec_lem c no_device known s m fresh),
      trapped,
      (unfold is_exit_status_bad in rw trapped refl),
    )
