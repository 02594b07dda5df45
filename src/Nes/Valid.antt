-- ===== src/Nes/Valid.antt =====
-- The well-formed states of LiteNES, for a cartridge with a mapper other than 3.
pub mod Ppu
pub mod Memory
pub mod Cpu
pub mod Ops
pub mod Handlers
pub mod Run
use riscv32_cpu.Base.{ℕ, ◌^◌, ◌<◌, ◌≡◌, ◌≢◌}
use riscv32_cpu.Host.Access.{IsBytes}
use riscv32_cpu.Nes.{CpuState, PpuState, MmcState, Nes}

-- Each register holds a value of its C type.
pub record IsCpu (cpu : CpuState) : Type 0 where
  pub pc : cpu.pc < 2 ^ 16
  pub sp : cpu.sp < 2 ^ 8
  pub a : cpu.a < 2 ^ 8
  pub x : cpu.x < 2 ^ 8
  pub y : cpu.y < 2 ^ 8
  pub p : cpu.p < 2 ^ 8

-- The indices of the picture unit are words and bytes, its memories hold bytes, and the mirroring is
-- one of the two that fce_init sets.
pub record IsPpu (ppu : PpuState) : Type 0 where
  pub oamaddr : ppu.oamaddr < 2 ^ 8
  pub ppuaddr : ppu.ppuaddr < 2 ^ 16
  pub mirroring_xor : ppu.mirroring_xor < 2 ^ 14
  pub sprram : IsBytes ppu.ppu_sprram
  pub ram : IsBytes ppu.ppu_ram

pub record IsMmc (mmc : MmcState) : Type 0 where
  pub mapper : mmc.mmc_id ≢ 3
  pub memory : IsBytes mmc.memory

abbrev pub IsNes : Nes → Type 0
IsNes s = IsCpu s.cpu × IsPpu s.ppu × IsMmc s.mmc × IsBytes s.cpu_ram
