-- ===== src/Device/Update.antt =====
-- nemu/src/device/device.c: device_update, which the execution loop calls after each instruction.
use riscv32_cpu.Base.{ℕ, ◌+◌, ◌-◌, ◌/◌, ◌^◌, List, [], ◌∷◌, ltb, if◌then◌else◌}
use riscv32_cpu.Word.{u64}
use riscv32_cpu.Machine.{quit, Event, window_closed, other, key, M, pure, get, put, ◌>>=◌, ◌>>◌}
use riscv32_cpu.Device.Timer.{get_time}
use riscv32_cpu.Device.Keyboard.{send_key}

abbrev pub timer_hz : ℕ
timer_hz = 60

unfoldable pub handle_event : Event → M (Unit {0})
unfolding send_key
handle_event window_closed = do
  s ← get
  put (record s { nemu_state = record (s.nemu_state) { state = quit } })
handle_event (key scancode is_keydown) = send_key scancode is_keydown
handle_event other = pure tt

unfoldable pub handle_events : List Event → M (Unit {0})
handle_events [] = pure tt
handle_events (event ∷ rest) = handle_event event >> handle_events rest

-- vga_update_screen does nothing yet.
unfoldable pub poll_events : M (Unit {0})
poll_events = do
  s ← get
  put (record s { window = record (s.window) { polls = s.window.polls + 1 } })
  handle_events (s.window.events s.window.polls)

unfoldable pub device_update : M (Unit {0})
device_update = do
  now ← get_time
  s ← get
  if ltb (u64 (now + 2 ^ 64 - s.window.last)) (1000000 / timer_hz)
      then pure tt
      else do put (record s { window = record (s.window) { last = now } }); poll_events
