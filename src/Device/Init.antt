-- ===== src/Device/Init.antt =====
-- The initialisation of the devices: init_map of nemu/src/device/io/map.c, the init functions of
-- serial.c, timer.c, vga.c, keyboard.c and audio.c in nemu/src/device, and init_device of
-- nemu/src/device/device.c. The addresses and sizes are the defaults of nemu/src/device/Kconfig, for
-- an ISA without port I/O. init_screen, which makes the calls that open the host's window, is left out.
pub mod Regions
use riscv32_cpu.Base.{ℕ, ◌+◌, ◌*◌, ◌^◌, bit_or, Bool, ◌&&◌, List, [], ◌∷◌, leb, ltb, if◌then◌else◌}
use riscv32_cpu.Word.{u32}
use riscv32_cpu.Machine.{
  Bytes, update, null, serial, rtc, i8042, audio, Io, Keyboard, M, get, put, assert, ◌>>=◌, ◌>>◌,
}
use riscv32_cpu.Device.Alarm.{max_handler}
use riscv32_cpu.Device.Handlers.{store_word}
use riscv32_cpu.Device.Map.{new_space}
use riscv32_cpu.Device.Mmio.{add_mmio_map}

unfoldable pub init_map : M (Unit {0})
init_map = do s ← get; put (record s { io = record (s.io) { p_space = 0 } })

unfoldable pub init_serial : M (Unit {0})
unfolding new_space add_mmio_map
init_serial = do
  base ← new_space 8
  s ← get
  put (record s { io = record (s.io) { serial_base = base } })
  add_mmio_map 0xa00003f8 base 8 serial

-- add_alarm_handle(timer_intr) of nemu/src/device/alarm.c, where the handler raises an interrupt
-- that dev_raise_intr ignores: what is left of it is the count of the handlers.
unfoldable pub add_timer_intr : M (Unit {0})
add_timer_intr = do
  s ← get
  assert (ltb s.alarm_idx max_handler)
  put (record s { alarm_idx = s.alarm_idx + 1 })

unfoldable pub init_timer : M (Unit {0})
unfolding new_space add_mmio_map add_timer_intr
init_timer = do
  base ← new_space 8
  s ← get
  put (record s { io = record (s.io) { rtc_port_base = base } })
  add_mmio_map 0xa0000048 base 8 rtc
  add_timer_intr

abbrev pub screen_w : ℕ
screen_w = 400

abbrev pub screen_h : ℕ
screen_h = 300

abbrev pub screen_size : ℕ
screen_size = u32 (screen_w * screen_h * 4)

-- memset
unfoldable pub fill : Bytes → ℕ → ℕ → ℕ → Bytes
fill m offset n v j = if leb offset j && ltb j (offset + n) then v else m j

unfoldable pub init_vga : M (Unit {0})
unfolding new_space add_mmio_map store_word fill
init_vga = do
  vgactl_port_base ← new_space 8
  store_word vgactl_port_base (bit_or (screen_w * 2 ^ 16) screen_h)
  add_mmio_map 0xa0000100 vgactl_port_base 8 null
  vmem ← new_space screen_size
  add_mmio_map 0xa1000000 vmem screen_size null
  s ← get
  put (record s { io = record (s.io) { io_space = fill s.io.io_space vmem screen_size 0 } })

-- SDL_KEYMAP over the keys of NEMU_KEYS, which are numbered from 1 on. The scancodes, which SDL
-- defines, are a parameter, in the order of NEMU_KEYS.
unfoldable pub assign_keys : List ℕ → ℕ → (ℕ → ℕ) → ℕ → ℕ
assign_keys [] k keymap = keymap
assign_keys (scancode ∷ rest) k keymap = assign_keys rest (k + 1) (update keymap scancode k)

unfoldable pub init_keymap : List ℕ → M (Unit {0})
unfolding assign_keys
init_keymap scancodes = do
  s ← get
  put (record s {
    keyboard = record (s.keyboard) { keymap = assign_keys scancodes 1 s.keyboard.keymap };
  })

unfoldable pub init_i8042 : List ℕ → M (Unit {0})
unfolding new_space add_mmio_map store_word init_keymap
init_i8042 scancodes = do
  base ← new_space 4
  s ← get
  put (record s { io = record (s.io) { i8042_data_port_base = base } })
  store_word base 0
  add_mmio_map 0xa0000060 base 4 i8042
  init_keymap scancodes

-- Six registers of four bytes, and the stream buffer.
unfoldable pub init_audio : M (Unit {0})
unfolding new_space add_mmio_map
init_audio = do
  audio_base ← new_space 24
  add_mmio_map 0xa0000200 audio_base 24 audio
  sbuf ← new_space 0x10000
  add_mmio_map 0xa1200000 sbuf 0x10000 null

-- init_alarm of nemu/src/device/alarm.c: whether sigaction and setitimer of the host return 0.
unfoldable pub init_alarm : Bool → Bool → M (Unit {0})
init_alarm sets_handler sets_timer = do assert sets_handler; assert sets_timer

unfoldable pub init_device : List ℕ → Bool → Bool → M (Unit {0})
unfolding init_map init_serial init_timer init_vga init_i8042 init_audio init_alarm
init_device scancodes sets_handler sets_timer = do
  init_map
  init_serial
  init_timer
  init_vga
  init_i8042 scancodes
  init_audio
  init_alarm sets_handler sets_timer
