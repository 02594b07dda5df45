-- ===== src/Nes/Rom.antt =====
-- am-kernels/kernels/litenes/src/fce.c: the cartridge's file and the start of the machine. Its
-- loop over the frames, which waits for the clock, is left out.
pub mod Load
pub mod Boot
use riscv32_cpu.Base.{
  ℕ, zero, suc, ◌+◌, ◌-◌, ◌*◌, ◌/◌, ◌%◌, ◌^◌, bit_and, Bool, ◌&&◌, ◌||◌, ◌==◌, if◌then◌else◌,
}
use riscv32_cpu.Word.{u8, ◌<<<◌, ◌>>>◌}
use riscv32_cpu.Machine.{Bytes}
use riscv32_cpu.State.{State, pure, get, put, ◌>>=◌, ◌>>◌}
use riscv32_cpu.Nes.{Nes, N}
use riscv32_cpu.Nes.Mmc.{mmc_copy, mmc_append_chr_rom_page}
use riscv32_cpu.Nes.Ppu.{ppu_copy, ppu_init, ppu_set_mirroring}
use riscv32_cpu.Nes.Cpu.Run.{cpu_init, cpu_reset}

-- The fields of the header, the first 16 bytes of the file; `word rom_type` is little-endian.
unfoldable pub signature_matches : Bytes → Bool
signature_matches rom = rom 0 == 0x4e && rom 1 == 0x45 && rom 2 == 0x53 && rom 3 == 0x1a

unfoldable pub prg_block_count : Bytes → ℕ
prg_block_count rom = rom 4

unfoldable pub chr_block_count : Bytes → ℕ
chr_block_count rom = rom 5

unfoldable pub rom_type : Bytes → ℕ
rom_type rom = rom 6 + (rom 7 <<< 8)

-- The file from an offset on: what romread returns, at the offset that `buf` has come to.
abbrev pub romread : Bytes → ℕ → Bytes
romread rom offset j = rom (offset + j)

-- The PRG blocks, where `mmc_id` is 0 or 3: one block is repeated.
unfoldable pub load_prg : Bytes → N (Unit {0})
unfolding prg_block_count
load_prg rom =
    if prg_block_count rom == 1
    then (mmc_copy 0x8000 (romread rom 16) 0x4000 >> mmc_copy 0xc000 (romread rom 16) 0x4000)
    else mmc_copy 0x8000 (romread rom 16) 0x8000

-- The loop over the CHR blocks, with `n` to go; `offset` is that of the block `i`.
unfoldable pub load_chr : Bytes → ℕ → ℕ → ℕ → N (Unit {0})
load_chr rom offset i zero = pure tt
load_chr rom offset i (suc n) = do
  mmc_append_chr_rom_page (romread rom offset)
  (if i == 0 then ppu_copy 0 (romread rom offset) 0x2000 else pure tt)
  load_chr rom (offset + 0x2000) (i + 1) n

unfoldable pub set_mmc_id : ℕ → N (Unit {0})
set_mmc_id v = do s ← get; put (record s { mmc = record (s.mmc) { mmc_id = u8 v } })

-- The value -1 as an `int`.
abbrev pub failed : ℕ
failed = 2 ^ 32 - 1

unfoldable pub fce_load_rom : Bytes → N ℕ
unfolding rom_type prg_block_count chr_block_count
fce_load_rom rom =
    if signature_matches rom
    then (set_mmc_id (bit_and (rom_type rom) 0xf0 >>> 4) >>= λ u. get >>= λ s.
        if s.mmc.mmc_id == 0 || s.mmc.mmc_id == 3
        then (load_prg rom >>= λ w.
            load_chr rom (16 + prg_block_count rom * 0x4000) 0 (chr_block_count rom) >>= λ e.
            pure 0)
        else pure failed)
    else pure failed

unfoldable pub fce_init : Bytes → N (Unit {0})
unfolding rom_type
fce_init rom = do cpu_init; ppu_init; ppu_set_mirroring (bit_and (rom_type rom) 1); cpu_reset
