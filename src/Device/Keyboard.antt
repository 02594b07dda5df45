-- ===== src/Device/Keyboard.antt =====
-- nemu/src/device/keyboard.c: the queue of key events between the host's window and the guest.
pub mod Queue
use riscv32_cpu.Base.{ℕ, ◌+◌, ◌%◌, bit_or, Bool, true, false, not, ◌&&◌, ◌==◌, if◌then◌else◌}
use riscv32_cpu.Fault.{Fault}
use riscv32_cpu.Word.{u8}
use riscv32_cpu.Machine.{
  update, RunState, running, Keyboard, Machine, M, pure, get, put, assert, ◌>>=◌, ◌>>◌,
}

abbrev pub key_queue_len : ℕ
key_queue_len = 1024

abbrev pub keydown_mask : ℕ
keydown_mask = 0x8000

abbrev pub key_none : ℕ
key_none = 0

abbrev set_keyboard : Keyboard → M (Unit {0})
set_keyboard k = do s ← get; put (record s { keyboard = k })

-- The write, the new index, and the assertion after both.
unfoldable pub key_enqueue : ℕ → M (Unit {0})
unfolding update
key_enqueue am_scancode = do
  s ← get
  let k = s.keyboard
  let rear = (k.key_r + 1) % key_queue_len
  set_keyboard (record k { key_queue = update k.key_queue k.key_r am_scancode; key_r = rear })
  assert (not (rear == k.key_f))

unfoldable pub key_dequeue : M ℕ
key_dequeue = do
  s ← get
  let k = s.keyboard
  if k.key_f == k.key_r then pure key_none else do
    set_keyboard (record k { key_f = (k.key_f + 1) % key_queue_len })
    pure (k.key_queue k.key_f)

abbrev is_running : RunState → Bool
is_running running = true
is_running _ = false

-- A `uint8_t` scancode: keys that the map does not name, and keys while the guest stands still,
-- are dropped.
unfoldable pub send_key : ℕ → Bool → M (Unit {0})
unfolding key_enqueue
send_key scancode is_keydown = do
  s ← get
  let key = s.keyboard.keymap (u8 scancode)
  if is_running s.nemu_state.state && not (key == key_none)
      then key_enqueue (bit_or key (if is_keydown then keydown_mask else 0))
      else pure tt
