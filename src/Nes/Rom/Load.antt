-- ===== src/Nes/Rom/Load.antt =====
-- What fce_load_rom and fce_init leave for a cartridge with one or two PRG blocks and
-- one CHR block.
use riscv32_cpu.Base.{
  ℕ, ◌+◌, ◌-◌, ◌*◌, ◌^◌, ◌<◌, bit_and, true, false, ◌&&◌, ◌≡◌, refl, arith, ltb, leb, ◌==◌,
  if◌then◌else◌,
}
use riscv32_cpu.Nes.Memory.{memory_readb, memory_readw}
use riscv32_cpu.Nes.Cpu.{cpu_reset_interrupt_address, cpu_set_pc, cpu_set_sp, cpu_set_p}
use riscv32_cpu.Nes.Cpu.Run.{cpu_init, cpu_reset}
use riscv32_cpu.Word.{u8, u16, u32, ◌<<<◌}
use riscv32_cpu.Fault.{ok}
use riscv32_cpu.Machine.{Bytes}
use riscv32_cpu.State.{pure, get, put, assert, ◌>>=◌}
use riscv32_cpu.Nes.{Nes}
use riscv32_cpu.Nes.Mmc.{mmc_read, mmc_copy, mmc_append_chr_rom_page}
use riscv32_cpu.Nes.Ppu.{copy_bytes, set_ppu, ppu_copy, ppu_init, ppu_set_mirroring}
use riscv32_cpu.Nes.Rom.{
  signature_matches, prg_block_count, chr_block_count, rom_type, romread, load_prg, load_chr,
  set_mmc_id, failed, fce_load_rom, fce_init,
}

-- A file without the signature "NES\x1A" is refused, and nothing is changed.
pub fce_load_rom-refuses :
    (rom : Bytes) (s : Nes) → signature_matches rom ≡ false → fce_load_rom rom s ≡ ok (failed, s)
unfolding fce_load_rom pure
fce_load_rom-refuses rom s other = rw other

-- The memories after the load of a file with `c` PRG blocks: one block stands twice.
abbrev pub loaded_memory : ℕ → Bytes → Bytes → Bytes
loaded_memory c rom m =
    if c == 1
    then copy_bytes (copy_bytes m 0x8000 (romread rom 16) 0x4000) 0xc000 (romread rom 16) 0x4000
    else copy_bytes m 0x8000 (romread rom 16) 0x8000

abbrev pub loaded : ℕ → Bytes → Nes → Nes
loaded c rom s = record s {
  mmc = record (s.mmc) {
    mmc_id = 0;
    memory = loaded_memory c rom s.mmc.memory;
    mmc_chr_pages = λ i. if i == 0 then romread rom (16 + c * 0x4000) else s.mmc.mmc_chr_pages i;
    mmc_chr_pages_number = 1;
  };
  ppu = record (s.ppu) {
    ppu_ram = copy_bytes s.ppu.ppu_ram 0 (romread rom (16 + c * 0x4000)) 0x2000;
  };
}

-- The numbers of PRG blocks that the address space has room for.
pub data Fits : ℕ → Type 0 where
  one : Fits 1
  two : Fits 2

-- The file of a game: the signature, one or two PRG blocks, one CHR block, and the mapper 0.
pub record IsGame (c : ℕ) (rom : Bytes) : Type 0 where
  pub signature : signature_matches rom ≡ true
  pub fits : Fits c
  pub prg : prg_block_count rom ≡ c
  pub chr : chr_block_count rom ≡ 1
  pub mapper : bit_and (rom_type rom) 0xf0 ≡ 0

load_prg_run :
    {c : ℕ} (rom : Bytes) (s : Nes)
    → Fits c
    → prg_block_count rom ≡ c
    → load_prg rom s
      ≡ ok (tt, record s { mmc = record (s.mmc) { memory = loaded_memory c rom s.mmc.memory } })
unfolding load_prg mmc_copy ◌>>=◌ get put
load_prg_run rom s one prg = rw prg refl
load_prg_run rom s two prg = rw prg refl

pub load_run :
    (c : ℕ) (rom : Bytes) (s : Nes)
    → IsGame c rom
    → s.mmc.mmc_chr_pages_number ≡ 0
    → fce_load_rom rom s ≡ ok (0, loaded c rom s)
unfolding fce_load_rom load_chr set_mmc_id mmc_append_chr_rom_page ppu_copy assert ◌>>=◌ get put
    pure
load_run c rom s game none = rw (
  game.signature,
  game.mapper,
  load_prg_run rom (record s { mmc = record (s.mmc) { mmc_id = 0 } }) game.fits game.prg,
  game.prg,
  game.chr,
  none,
)

-- The first PRG block stands at 0x8000, and the last one at 0xc000.
pub prg_lem :
    {c : ℕ} (rom m : Bytes) (i : ℕ)
    → Fits c
    → i < 0x4000
    → (loaded_memory c rom m (0x8000 + i) ≡ rom (16 + i))
      × (loaded_memory c rom m (0xc000 + i) ≡ rom (16 + (c - 1) * 0x4000 + i))
unfolding copy_bytes
prg_lem rom m i one h =
    let below : leb 0xc000 (0x8000 + i) ≡ false = ground arith in
    let low : leb 0x8000 (0x8000 + i) ≡ true = ground arith in
    let low_end : ltb (0x8000 + i) (0x8000 + 0x4000) ≡ true = ground arith in
    let high : leb 0xc000 (0xc000 + i) ≡ true = ground arith in
    let high_end : ltb (0xc000 + i) (0xc000 + 0x4000) ≡ true = ground arith in
    let low_at : 0x8000 + i - 0x8000 ≡ i = omega arith in
    let high_at : 0xc000 + i - 0xc000 ≡ i = omega arith in
    (rw (below, low, low_end, low_at), rw (high, high_end, high_at))
prg_lem rom m i two h =
    let low : leb 0x8000 (0x8000 + i) ≡ true = ground arith in
    let low_end : ltb (0x8000 + i) (0x8000 + 0x8000) ≡ true = ground arith in
    let high : leb 0x8000 (0xc000 + i) ≡ true = ground arith in
    let high_end : ltb (0xc000 + i) (0x8000 + 0x8000) ≡ true = ground arith in
    let low_at : 0x8000 + i - 0x8000 ≡ i = omega arith in
    let high_at : 16 + (0xc000 + i - 0x8000) ≡ 16 + 0x4000 + i = omega arith in
    (rw (low, low_end, low_at), rw (high, high_end, high_at))

-- The CHR block stands at 0 in the memory of the picture unit.
pub chr_lem :
    (rom m : Bytes) (offset k : ℕ)
    → k < 0x2000
    → copy_bytes m 0 (romread rom offset) 0x2000 k ≡ rom (offset + k)
unfolding copy_bytes
chr_lem rom m offset k h =
    let inside : (leb 0 k && ltb k 0x2000) ≡ true = ground arith in
    let start : k - 0 ≡ k = omega arith in rw (inside, start)

-- The word at the reset vector, near the end of the last PRG block.
abbrev pub vector : ℕ → Bytes → ℕ
vector c rom = rom (16 + (c - 1) * 0x4000 + 0x3ffc) + rom (16 + (c - 1) * 0x4000 + 0x3ffd) * 2 ^ 8

-- The state after fce_init.
abbrev pub started : ℕ → Bytes → Nes → Nes
started c rom s = record (loaded c rom s) {
  cpu = record { pc = u16 (u16 (vector c rom)); sp = 0xfd; a = 0; x = 0; y = 0; p = 0x24 };
  ppu = record ((loaded c rom s).ppu) {
    ppuctrl = 0;
    ppumask = 0;
    ppustatus = 0xa0;
    oamaddr = 0;
    ppuscroll_x = 0;
    ppuscroll_y = 0;
    ppuaddr = 0;
    ppudata = 0;
    ppu_2007_first_read = true;
    mirroring = u8 (bit_and (rom_type rom) 1);
    mirroring_xor = u32 (0x400 <<< u8 (bit_and (rom_type rom) 1));
  };
}

pub init_run :
    {c : ℕ} (rom : Bytes) (s : Nes)
    → Fits c
    → fce_init rom (loaded c rom s) ≡ ok (tt, started c rom s)
unfolding fce_init cpu_init ppu_init ppu_set_mirroring set_ppu cpu_reset cpu_reset_interrupt_address
    cpu_set_pc cpu_set_sp cpu_set_p memory_readw memory_readb mmc_read copy_bytes ◌>>=◌ get put pure
init_run rom s one = refl
init_run rom s two = refl
