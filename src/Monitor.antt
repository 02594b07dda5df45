-- ===== src/Monitor.antt =====
-- nemu/src/monitor and nemu/src/nemu-main.c: the start of the emulator and its debugger.
pub mod Text
pub mod Sdb
pub mod Watchpoint
pub mod Expr
pub mod Start
