-- ===== src/Monitor/Start/Batch.antt =====
-- The emulator in batch mode on the built-in image, from the command line to the exit status.
use riscv32_cpu.Base.{
  ◌+◌, ◌-◌, ◌^◌, ◌%◌, ◌≡◌, refl, Bool, true, false, Option, none, some, ltb, if◌then◌else◌, arith,
}
use riscv32_cpu.Fault.{ok}
use riscv32_cpu.Word.{u32, u64}
use riscv32_cpu.Memory.Range.{msize}
use riscv32_cpu.Machine.{end, stop, Machine, pure, assert, ◌>>=◌}
use riscv32_cpu.Device.Timer.{get_time_internal}
use riscv32_cpu.Isa.Riscv32.Boot.{init_isa}
use riscv32_cpu.Exec.{Config, cpu_exec, is_exit_status_bad}
use riscv32_cpu.Exec.Boot.{KnowsImage, started, init_isa_lem, init_isa-cpu_exec}
use riscv32_cpu.Monitor.Text.{Text}
use riscv32_cpu.Monitor.Sdb.{run_on, sdb_mainloop}
use riscv32_cpu.Monitor.Expr.{init_regex, rules, compile_rules, blanks, plus, equals}
use riscv32_cpu.Monitor.Start.{
  Args, no_args, System, parse_args, init_rand, init_log, init_mem, load_img, init_difftest,
  init_sdb, init_disasm, init_monitor, engine_start, run, run_parsed, main,
}

-- What the start needs of the host: the log file opens, if one is given, the patterns of the three
-- rules compile, capstone is found, and parse_elf returns and changes nothing.
pub record IsUsable (h : System) (a : Args) : Type 0 where
  pub log : (log_file : Text) → a.log_file ≡ some log_file → h.creates log_file ≡ true
  pub regex :
      (h.compiles blanks.regex ≡ true)
      × (h.compiles plus.regex ≡ true)
      × (h.compiles equals.regex ≡ true)
  pub capstone : h.finds_capstone ≡ true
  pub elf : (s : Machine) → h.parse_elf a.elf_file s ≡ ok (tt, s)

init_log-returns :
    (creates : Text → Bool) (file : Option Text) (s : Machine)
    → ((log_file : Text) → file ≡ some log_file → creates log_file ≡ true)
    → init_log creates file s ≡ ok (tt, s)
unfolding init_log pure assert
init_log-returns creates none s opens = refl
init_log-returns creates (some log_file) s opens = rw (opens log_file refl) refl

init_regex-returns : (h : System) (a : Args) → IsUsable h a → init_regex h.compiles ≡ ok tt
unfolding init_regex rules compile_rules
init_regex-returns h a usable = rw (usable.regex.0, usable.regex.1, usable.regex.2) refl

-- The state in which init_isa finds the machine.
prepared : System → Machine → Machine
prepared h s =
    let seed = u64 (s.clock.readings s.clock.calls) in
    record s {
      clock = record (s.clock) { calls = s.clock.calls + 1 };
      pmem = λ j. if ltb j msize then h.next_rand (u32 seed) % 256 else s.pmem j;
    }

module _ (c : Config) (h : System) (a : Args) where
  init_monitor-prepared :
      (s t : Machine)
      → c.device ≡ false
      → IsUsable h a
      → a.img_file ≡ none
      → init_isa (prepared h s) ≡ ok (tt, t)
      → init_monitor c h a s ≡ ok (tt, t)
  unfolding init_monitor init_rand get_time_internal init_mem load_img init_difftest init_sdb
      init_disasm prepared ◌>>=◌
  init_monitor-prepared s t no_device usable built_in booted =
      rw
        (
          init_log-returns h.creates a.log_file _ usable.log,
          usable.elf _,
          no_device,
          booted,
          built_in,
          init_regex-returns h a usable,
          usable.capstone,
        )
        refl

  run-batch :
      (s t u : Machine)
      → init_monitor c h a s ≡ ok (tt, t)
      → a.is_batch_mode ≡ true
      → cpu_exec c (2 ^ 64 - 1) t ≡ ok (tt, u)
      → is_exit_status_bad u ≡ false
      → run c h a s ≡ ok (0, u)
  unfolding run engine_start sdb_mainloop run_on ◌>>=◌
  run-batch s t u monitor batch executed good = rw (monitor, batch, executed, good) refl

-- Let the build have no devices, the disassembler know the image's four instructions, the command
-- line ask for batch mode and name no image, and the host be usable. Then main returns the exit status
-- 0, whatever the memory, the registers, the clock and the random byte held: the guest has hit the
-- good trap at 0x8000000c.
pub main-batch :
    (c : Config) (h : System) (a : Args) (s : Machine)
    → c.device ≡ false
    → KnowsImage c
    → IsUsable h a
    → parse_args h.options no_args ≡ some a
    → a.is_batch_mode ≡ true
    → a.img_file ≡ none
    → s.nemu_state.state ≡ stop
    → (t : Machine) × (main c h s ≡ ok (0, t))
      × (t.nemu_state ≡ record { state = end; halt_pc = 0x8000000c; halt_ret = 0 })
unfolding main run_parsed prepared ◌>>=◌
main-batch c h a s no_device known usable parsed batch built_in fresh =
    let p = prepared h s in
    let result = init_isa-cpu_exec c (2 ^ 64 - 1) p no_device known (omega arith) fresh in
    let start = init_isa_lem p in
    let executed : cpu_exec c (2 ^ 64 - 1) (started p) ≡ ok (tt, result.0) = rw start at result.1 in
    (
      result.0,
      rw parsed (
          run-batch c h a s (started p) result.0
            (init_monitor-prepared c h a s (started p) no_device usable built_in start) batch
            executed result.3),
      result.2,
    )
