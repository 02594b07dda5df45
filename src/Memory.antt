-- ===== src/Memory.antt =====
-- nemu/src/memory: the guest's physical memory, and the addresses that lead to it or to a device.
pub mod Range
pub mod Paddr
