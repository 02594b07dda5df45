-- ===== src/Tests/Exec.antt =====
-- Runs of the execution loop.
use riscv32_cpu.Base.{◌≡◌, refl, false, arith}
use riscv32_cpu.Fault.{ok}
use riscv32_cpu.Host.Access.{store-IsBytes}
use riscv32_cpu.Memory.Range.{guest_to_host}
use riscv32_cpu.Machine.{update, running, end, Machine, ◌>>=◌, ◌>>◌}
use riscv32_cpu.Machine.Valid.{IsReady}
use riscv32_cpu.Isa.Riscv32.Boot.{img, copy_words, restart, init_isa}
use riscv32_cpu.Exec.{execute, cpu_exec, is_exit_status_bad}
use riscv32_cpu.Exec.Boot.{started, after_ebreak, image_run, init_isa-cpu_exec}
use riscv32_cpu.Exec.Chunks.{cpu_exec_add}
use riscv32_cpu.Exec.Untimed.{map_state}
use riscv32_cpu.Exec.Settled.{IsSettled, cpu_exec-IsSettled}
use riscv32_cpu.Exec.Program.{execute-Runs}
use riscv32_cpu.Exec.Valid.{cpu_exec-IsReady}
use riscv32_cpu.Tests.{fresh, plain}

-- The image's four instructions, with room for two more.
abbrev on : Machine
on = record fresh { nemu_state = record (fresh.nemu_state) { state = running } }

execute-Runs_example : execute plain 6 (started on) ≡ ok (tt, after_ebreak on)
execute-Runs_example =
    execute-Runs plain 6 (started on) (after_ebreak on) refl
      (image_run plain (refl, refl, refl, refl) 2 on refl)

-- A guest that has hit its trap.
abbrev trapped : Machine
trapped = record fresh { nemu_state = record { state = end; halt_pc = 0x8000000c; halt_ret = 0 } }

-- The built-in image in the memory, before and after its run.
abbrev pub booted : Machine
booted = record fresh {
  cpu = record { gpr = update (λ i. 0) 0 0; pc = 0x80000000 };
  pmem = copy_words (λ j. 0) 0 img;
}

boot :
    (t : Machine) × ((init_isa >> cpu_exec plain 10) fresh ≡ ok (tt, t))
    × (t.nemu_state ≡ record { state = end; halt_pc = 0x8000000c; halt_ret = 0 })
    × (is_exit_status_bad t ≡ false)
boot = init_isa-cpu_exec plain 10 fresh refl (refl, refl, refl, refl) (omega arith) refl

boot_run : cpu_exec plain 10 booted ≡ ok (tt, boot.0)
unfolding init_isa restart guest_to_host ◌>>=◌
boot_run = boot.1

pub booted-IsReady : IsReady booted
booted-IsReady = record {
  cpu_part = record {
    words = record { gpr = λ i. unfold update in ground arith; pc = omega arith };
    zero_register = (unfold update in refl);
  };
  pmem_bytes =
      (unfold copy_words in
        store-IsBytes _ 16 4 0xdeadbeef (
          store-IsBytes _ 12 4 0x00100073 (
            store-IsBytes _ 8 4 0x0102c503 (
              store-IsBytes _ 4 4 0x00028823
                (store-IsBytes (λ j. 0) 0 4 0x00000297 (λ j. omega arith))))));
  io_bytes = λ j. omega arith;
}

cpu_exec-IsSettled_example : IsSettled (boot.0)
cpu_exec-IsSettled_example = cpu_exec-IsSettled plain 10 booted (boot.0) boot_run

cpu_exec-IsReady_example : IsReady (boot.0)
cpu_exec-IsReady_example = cpu_exec-IsReady plain 10 booted (boot.0) booted-IsReady boot_run

cpu_exec_add_example :
    map_state ((cpu_exec plain 2 >> cpu_exec plain 3) booted) ≡ map_state (cpu_exec plain 5 booted)
cpu_exec_add_example = cpu_exec_add plain 2 3 booted refl
