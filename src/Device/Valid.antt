-- ===== src/Device/Valid.antt =====
-- The devices keep the state well-formed, and what is read from their memory is a word.
use riscv32_cpu.Base.{ℕ, Bool, List, [], ◌∷◌}
use riscv32_cpu.Host.Access.{store-IsBytes}
use riscv32_cpu.Machine.{
  Event, window_closed, other, key, Callback, null, serial, rtc, i8042, audio, Cpu,
}
use riscv32_cpu.State.Gives.{Gives, Any, Gives-bind_get, Gives-bind_any, Gives-put, gives_rules}
use riscv32_cpu.Machine.Valid.{IsWell}
use riscv32_cpu.Device.Timer.{get_time_internal, set_boot_time, get_time}
use riscv32_cpu.Device.Keyboard.{key_enqueue, key_dequeue, send_key}
use riscv32_cpu.Device.Handlers.{
  serial_io_handler, rtc_io_handler, i8042_data_io_handler, audio_io_handler, invoke_callback,
  store_word, serial_putc, refresh_rtc,
}
use riscv32_cpu.Device.Update.{handle_event, handle_events, poll_events, device_update}

module _ (C : Cpu → Type 0) where
  get_time_internal-Gives : Gives (IsWell C) get_time_internal Any
  unfolding get_time_internal
  get_time_internal-Gives = search gives_rules

  set_boot_time-Gives : (t : ℕ) → Gives (IsWell C) (set_boot_time t) Any
  unfolding set_boot_time
  set_boot_time-Gives t = search gives_rules

  pub get_time-Gives : Gives (IsWell C) get_time Any
  unfolding get_time
  get_time-Gives = search (gives_rules, get_time_internal-Gives, set_boot_time-Gives) depth 12

  key_enqueue-Gives : (code : ℕ) → Gives (IsWell C) (key_enqueue code) Any
  unfolding key_enqueue
  key_enqueue-Gives code = search gives_rules depth 12

  key_dequeue-Gives : Gives (IsWell C) key_dequeue Any
  unfolding key_dequeue
  key_dequeue-Gives = search gives_rules depth 12

  pub send_key-Gives : (code : ℕ) (down : Bool) → Gives (IsWell C) (send_key code down) Any
  unfolding send_key
  send_key-Gives code down = search (gives_rules, key_enqueue-Gives) depth 12

  store_word-Gives : (place v : ℕ) → Gives (IsWell C) (store_word place v) Any
  unfolding store_word
  store_word-Gives place v = Gives-bind_get _ λ s h. Gives-put _ (record {
    cpu_part = h.cpu_part;
    pmem_bytes = h.pmem_bytes;
    io_bytes = store-IsBytes s.io.io_space place 4 v h.io_bytes;
  })

  serial_putc-Gives : (ch : ℕ) → Gives (IsWell C) (serial_putc ch) Any
  unfolding serial_putc
  serial_putc-Gives ch = search gives_rules

  serial_io_handler-Gives :
      (offset len : ℕ) (w : Bool) → Gives (IsWell C) (serial_io_handler offset len w) Any
  unfolding serial_io_handler
  serial_io_handler-Gives offset len w = search (gives_rules, serial_putc-Gives) depth 12

  refresh_rtc-Gives : Gives (IsWell C) refresh_rtc Any
  unfolding refresh_rtc
  refresh_rtc-Gives = search (gives_rules, get_time-Gives, store_word-Gives) depth 12

  rtc_io_handler-Gives :
      (offset len : ℕ) (w : Bool) → Gives (IsWell C) (rtc_io_handler offset len w) Any
  unfolding rtc_io_handler
  rtc_io_handler-Gives offset len w = search (gives_rules, refresh_rtc-Gives) depth 12

  i8042_data_io_handler-Gives :
      (offset len : ℕ) (w : Bool) → Gives (IsWell C) (i8042_data_io_handler offset len w) Any
  unfolding i8042_data_io_handler
  i8042_data_io_handler-Gives offset len w =
      search (gives_rules, key_dequeue-Gives, store_word-Gives) depth 12

  pub invoke_callback-Gives :
      (c : Callback) (offset len : ℕ) (w : Bool)
      → Gives (IsWell C) (invoke_callback c offset len w) Any
  unfolding invoke_callback
  invoke_callback-Gives null offset len w = search gives_rules
  invoke_callback-Gives serial offset len w = serial_io_handler-Gives offset len w
  invoke_callback-Gives rtc offset len w = rtc_io_handler-Gives offset len w
  invoke_callback-Gives i8042 offset len w = i8042_data_io_handler-Gives offset len w
  invoke_callback-Gives audio offset len w = unfold audio_io_handler in search gives_rules

  handle_event-Gives : (e : Event) → Gives (IsWell C) (handle_event e) Any
  unfolding handle_event
  handle_event-Gives window_closed = search gives_rules
  handle_event-Gives other = search gives_rules
  handle_event-Gives (key scancode down) = send_key-Gives scancode down

  handle_events-Gives : (es : List Event) → Gives (IsWell C) (handle_events es) Any
  unfolding handle_events
  handle_events-Gives [] = search gives_rules
  handle_events-Gives (e ∷ es) =
      Gives-bind_any _ _ (handle_event-Gives e) (λ _. handle_events-Gives es)

  poll_events-Gives : Gives (IsWell C) poll_events Any
  unfolding poll_events
  poll_events-Gives = search (gives_rules, handle_events-Gives) depth 12

  pub device_update-Gives : Gives (IsWell C) device_update Any
  unfolding device_update
  device_update-Gives = search (gives_rules, get_time-Gives, poll_events-Gives) depth 12
