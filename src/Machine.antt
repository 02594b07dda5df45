-- ===== src/Machine.antt =====
-- The emulator's global variables as one record, and the functions that read and write them. Each record names the file whose static or global variables it holds.
pub mod Valid
use riscv32_cpu.Base.{ℕ, Bool, true, false, List, ◌==◌, if◌then◌else◌}
unfoldable pub use riscv32_cpu.State.{
  State, pure, stop_with, lift, get, put, assert, bind_result, ◌>>=◌, ◌>>◌,
}

-- A byte array: the byte at each offset.
abbrev pub Bytes : Type 0
Bytes = ℕ → ℕ

-- `a[i] = v`
unfoldable pub update : Bytes → ℕ → ℕ → Bytes
update a i v j = if j == i then v else a j

-- nemu/src/isa/riscv32/include/isa-def.h: riscv32_CPU_state
pub record Cpu : Type 0 where
  pub gpr : ℕ → ℕ
  pub pc : ℕ

-- nemu/include/utils.h: the enumeration of the emulator's states, and NEMUState
pub data RunState : Type 0 where
  running stop end abort quit : RunState

pub record NemuState : Type 0 where
  pub state : RunState
  pub halt_pc : ℕ
  pub halt_ret : ℕ

-- The io_callback_t pointers that the devices register; `null` is NULL.
pub data Callback : Type 0 where
  null serial rtc i8042 audio : Callback

-- nemu/include/device/map.h: IOMap. `space` is the offset of the device's memory in `io_space`;
-- the name, which only messages show, is left out.
pub record IoMap : Type 0 where
  pub low : ℕ
  pub high : ℕ
  pub space : ℕ
  pub callback : Callback

-- nemu/src/device/io/map.c, and nemu/src/device/io/mmio.c: `maps[0..nr_map)` and the bases that the
-- devices got from new_space
pub record Io : Type 0 where
  pub io_space : Bytes
  pub p_space : ℕ
  pub maps : List IoMap
  pub serial_base : ℕ
  pub rtc_port_base : ℕ
  pub i8042_data_port_base : ℕ

-- nemu/src/device/keyboard.c
pub record Keyboard : Type 0 where
  pub keymap : ℕ → ℕ
  pub key_queue : ℕ → ℕ
  pub key_f : ℕ
  pub key_r : ℕ

-- nemu/src/utils/timer.c: `readings n` is what the n-th call of get_time_internal returns.
pub record Clock : Type 0 where
  pub readings : ℕ → ℕ
  pub calls : ℕ
  pub boot_time : ℕ

-- What SDL_PollEvent reports, as device_update tells events apart.
pub data Event : Type 0 where
  window_closed other : Event
  key : (scancode : ℕ) → (is_keydown : Bool) → Event

-- nemu/src/device/device.c: `events n` are those that the n-th emptying of the queue yields.
pub record Window : Type 0 where
  pub events : ℕ → List Event
  pub polls : ℕ
  pub last : ℕ

pub record Machine : Type 0 where
  pub cpu : Cpu
  pub pmem : Bytes
  pub nemu_state : NemuState
  pub g_nr_guest_inst : ℕ
  pub io : Io
  pub keyboard : Keyboard
  pub clock : Clock
  pub window : Window
  pub g_timer : ℕ
  -- nemu/src/device/alarm.c: `idx`, the number of the registered handlers
  pub alarm_idx : ℕ
  -- the bytes that serial_putc wrote, the last one first
  pub printed : List ℕ

-- A function over the globals.
abbrev pub M : Type 0 → Type 0
M = State Machine
