-- ===== src/Device.antt =====
-- nemu/src/device: the devices of the native build, and the tables that map them into memory.
pub mod Timer
pub mod Keyboard
pub mod Handlers
pub mod Map
pub mod Mmio
pub mod Update
pub mod Init
pub mod Valid
pub mod Access
pub mod Sdcard
pub mod Alarm
pub mod Pio
