-- ===== src/Device/Handlers.antt =====
-- The callbacks of the devices: serial_io_handler of nemu/src/device/serial.c, rtc_io_handler of
-- nemu/src/device/timer.c, i8042_data_io_handler of nemu/src/device/keyboard.c and audio_io_handler
-- of nemu/src/device/audio.c.
use riscv32_cpu.Base.{ℕ, ◌+◌, ◌/◌, ◌^◌, Bool, not, ◌&&◌, ◌||◌, ◌∷◌, ◌==◌, if◌then◌else◌}
use riscv32_cpu.Fault.{Fault}
use riscv32_cpu.Word.{u32}
use riscv32_cpu.Host.{store}
use riscv32_cpu.Machine.{
  Callback, null, serial, rtc, i8042, audio, M, pure, stop_with, get, put, assert, ◌>>=◌, ◌>>◌,
}
use riscv32_cpu.Device.Timer.{get_time}
use riscv32_cpu.Device.Keyboard.{key_dequeue}

unfoldable pub serial_putc : ℕ → M (Unit {0})
serial_putc ch = do s ← get; put (record s { printed = ch ∷ s.printed })

unfoldable pub serial_io_handler : ℕ → ℕ → Bool → M (Unit {0})
unfolding serial_putc
serial_io_handler offset len is_write = do
  assert (len == 1)
  s ← get
  if offset == 0
      then (if is_write
          then serial_putc (s.io.io_space s.io.serial_base)
          else stop_with Fault.panic)
      else stop_with Fault.panic

-- A `uint32_t` store into the devices' memory.
unfoldable pub store_word : ℕ → ℕ → M (Unit {0})
store_word place v = do
  s ← get
  put (record s { io = record (s.io) { io_space = store s.io.io_space place 4 v } })

-- The microseconds since boot, in two words.
unfoldable pub refresh_rtc : M (Unit {0})
unfolding store get_time
refresh_rtc = do
  us ← get_time
  s ← get
  store_word s.io.rtc_port_base (u32 us)
  store_word (s.io.rtc_port_base + 4) (u32 (us / 2 ^ 32))

unfoldable pub rtc_io_handler : ℕ → ℕ → Bool → M (Unit {0})
unfolding refresh_rtc
rtc_io_handler offset len is_write = do
  assert (offset == 0 || offset == 4)
  if not is_write && offset == 4 then refresh_rtc else pure tt

unfoldable pub i8042_data_io_handler : ℕ → ℕ → Bool → M (Unit {0})
unfolding store key_dequeue
i8042_data_io_handler offset len is_write = do
  assert (not is_write)
  assert (offset == 0)
  key ← key_dequeue
  s ← get
  store_word s.io.i8042_data_port_base key

unfoldable pub audio_io_handler : ℕ → ℕ → Bool → M (Unit {0})
audio_io_handler offset len is_write = pure tt

-- invoke_callback of nemu/src/device/io/map.c
unfoldable pub invoke_callback : Callback → ℕ → ℕ → Bool → M (Unit {0})
invoke_callback null offset len is_write = pure tt
invoke_callback serial offset len is_write = serial_io_handler offset len is_write
invoke_callback rtc offset len is_write = rtc_io_handler offset len is_write
invoke_callback i8042 offset len is_write = i8042_data_io_handler offset len is_write
invoke_callback audio offset len is_write = audio_io_handler offset len is_write
