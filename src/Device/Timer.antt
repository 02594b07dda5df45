-- ===== src/Device/Timer.antt =====
-- nemu/src/utils/timer.c: get_time, over the readings of the host's clock.
use riscv32_cpu.Base.{ℕ, ◌+◌, ◌-◌, ◌^◌, ◌==◌, if◌then◌else◌}
use riscv32_cpu.Word.{u64}
use riscv32_cpu.Machine.{M, pure, get, put, ◌>>=◌, ◌>>◌}

unfoldable pub get_time_internal : M ℕ
get_time_internal = do
  s ← get
  put (record s { clock = record (s.clock) { calls = s.clock.calls + 1 } })
  pure (u64 (s.clock.readings s.clock.calls))

unfoldable pub set_boot_time : ℕ → M (Unit {0})
set_boot_time t = do s ← get; put (record s { clock = record (s.clock) { boot_time = t } })

unfoldable pub get_time : M ℕ
unfolding get_time_internal set_boot_time
get_time = do
  s ← get
  (if s.clock.boot_time == 0 then (get_time_internal >>= set_boot_time) else pure tt)
  now ← get_time_internal
  t ← get
  pure (u64 (now + 2 ^ 64 - t.clock.boot_time))
