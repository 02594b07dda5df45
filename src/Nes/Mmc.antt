-- ===== src/Nes/Mmc.antt =====
-- am-kernels/kernels/litenes/src/mmc.c: the cartridge.
use riscv32_cpu.Base.{ℕ, ◌+◌, bit_and, ltb, leb, ◌==◌, if◌then◌else◌}
use riscv32_cpu.Fault.{Fault}
use riscv32_cpu.Word.{u8}
use riscv32_cpu.Machine.{Bytes, update}
use riscv32_cpu.State.{pure, stop_with, get, put, assert, ◌>>=◌, ◌>>◌}
use riscv32_cpu.Nes.{N}
use riscv32_cpu.Nes.Ppu.{copy_bytes, ppu_copy}

abbrev pub mmc_max_page_count : ℕ
mmc_max_page_count = 1

unfoldable pub mmc_read : ℕ → N ℕ
mmc_read address = do s ← get; pure (s.mmc.memory address)

-- The pages are an array of MMC_MAX_PAGE_COUNT; reading another page is undefined.
unfoldable pub mmc_write : ℕ → ℕ → N (Unit {0})
unfolding update ppu_copy
mmc_write address v = do
  s ← get
  let page = bit_and v 3
  (if s.mmc.mmc_id == 3
      then (if ltb page mmc_max_page_count
          then ppu_copy 0 (s.mmc.mmc_chr_pages page) 0x2000
          else stop_with Fault.undefined)
      else pure tt)
  t ← get
  put (record t { mmc = record (t.mmc) { memory = update t.mmc.memory address (u8 v) } })

unfoldable pub mmc_copy : ℕ → Bytes → ℕ → N (Unit {0})
unfolding copy_bytes
mmc_copy address source length = do
  s ← get
  if leb (address + length) 0x10000
      then put (record s {
        mmc = record (s.mmc) { memory = copy_bytes s.mmc.memory address source length };
      })
      else stop_with Fault.undefined

unfoldable pub mmc_append_chr_rom_page : Bytes → N (Unit {0})
mmc_append_chr_rom_page source = do
  s ← get
  let n = s.mmc.mmc_chr_pages_number
  assert (ltb n mmc_max_page_count)
  put (record s {
    mmc = record (s.mmc) {
      mmc_chr_pages = λ i. if i == n then source else s.mmc.mmc_chr_pages i;
      mmc_chr_pages_number = n + 1;
    };
  })
