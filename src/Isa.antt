-- ===== src/Isa.antt =====
-- nemu/src/isa: the guest instruction sets.
pub mod Hostcall
pub mod Instpat
pub mod Riscv32
pub mod Mips32
pub mod Loongarch32r
