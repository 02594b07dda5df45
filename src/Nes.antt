-- ===== src/Nes.antt =====
-- The NES emulator LiteNES, a guest program: am-kernels/kernels/litenes/src. Its global variables
-- are one record, and a C function over them is a function of the state monad.
pub mod Bit
pub mod Ppu
pub mod Psg
pub mod Mmc
pub mod Memory
pub mod Cpu
pub mod Rom
pub mod Cycle
pub mod Valid
use riscv32_cpu.Base.{ℕ, Bool}
use riscv32_cpu.Machine.{Bytes}
use riscv32_cpu.State.{State}

-- cpu-internal.h: CPU_STATE
pub record CpuState : Type 0 where
  pub pc : ℕ
  pub sp : ℕ
  pub a : ℕ
  pub x : ℕ
  pub y : ℕ
  pub p : ℕ

-- ppu.h: PPU_STATE, with the static variables of ppu.c from `ppu_2007_first_read` on. The fields that
-- no function reads (OAMDATA, x) are left out.
pub record PpuState : Type 0 where
  pub ppuctrl : ℕ
  pub ppumask : ℕ
  pub ppustatus : ℕ
  pub oamaddr : ℕ
  pub ppuscroll : ℕ
  pub ppuscroll_x : ℕ
  pub ppuscroll_y : ℕ
  pub ppuaddr : ℕ
  pub ppudata : ℕ
  pub scroll_received_x : Bool
  pub addr_received_high_byte : Bool
  pub ready : Bool
  pub mirroring : ℕ
  pub mirroring_xor : ℕ
  pub ppu_2007_first_read : Bool
  pub ppu_addr_latch : ℕ
  pub ppu_sprram : Bytes
  pub ppu_ram : Bytes
  pub ppu_latch : ℕ

-- psg.c: the static variables
pub record PsgState : Type 0 where
  pub p : ℕ
  pub key_state : ℕ → ℕ
  pub prev_write : ℕ

-- mmc.c: the global and static variables; `mmc_chr_pages i` is the page `i`.
pub record MmcState : Type 0 where
  pub mmc_id : ℕ
  pub mmc_chr_pages : ℕ → Bytes
  pub mmc_chr_pages_number : ℕ
  pub memory : Bytes

-- cpu.c: the global and static variables but for the tables, which cpu_init fills and nothing
-- changes. `op_value` and `op_address` are of type `int`: numbers below 2^32 in two's complement.
pub record Nes : Type 0 where
  pub cpu : CpuState
  pub cpu_ram : Bytes
  pub op_value : ℕ
  pub op_address : ℕ
  -- an `int`, which starts at 0 and is only increased and set to 0
  pub op_cycles : ℕ
  pub cpu_cycles : ℕ
  pub ppu : PpuState
  pub psg : PsgState
  pub mmc : MmcState

abbrev pub N : Type 0 → Type 0
N = State Nes
