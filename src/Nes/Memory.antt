-- ===== src/Nes/Memory.antt =====
-- am-kernels/kernels/litenes/src/memory.c: the address space, with cpu_ram_read and cpu_ram_write of
-- cpu.c.
pub mod Ram
pub mod Dma
use riscv32_cpu.Base.{ℕ, zero, suc, ◌+◌, ◌*◌, ◌-◌, ◌/◌, ◌%◌, ◌^◌, bit_and, ◌==◌, if◌then◌else◌}
use riscv32_cpu.Word.{u8, u16, ◌<<<◌, ◌>>>◌}
use riscv32_cpu.Machine.{update}
use riscv32_cpu.State.{State, pure, get, put, ◌>>=◌, ◌>>◌}
use riscv32_cpu.Nes.{Nes, N}
use riscv32_cpu.Nes.Ppu.{ppuio_read, ppuio_write, ppu_sprram_write}
use riscv32_cpu.Nes.Psg.{psgio_read, psgio_write}
use riscv32_cpu.Nes.Mmc.{mmc_read, mmc_write}

unfoldable pub cpu_ram_read : ℕ → N ℕ
cpu_ram_read address = do s ← get; pure (s.cpu_ram (bit_and address 0x7ff))

unfoldable pub cpu_ram_write : ℕ → ℕ → N (Unit {0})
unfolding update
cpu_ram_write address v = do
  s ← get
  put (record s { cpu_ram = update s.cpu_ram (bit_and address 0x7ff) (u8 v) })

-- The address is converted to a word, and what is written to a byte.
unfoldable pub memory_readb : ℕ → N ℕ
memory_readb address =
    let word = u16 address in
    let part = word >>> 13 in
    if part == 0
    then cpu_ram_read (bit_and word 0x7ff)
    else if part == 1
    then ppuio_read word
    else if part == 2
    then psgio_read word
    else if part == 3
    then cpu_ram_read (bit_and word 0x1fff)
    else mmc_read word

-- The transfer of a page, with `n` bytes to go.
unfoldable pub dma : ℕ → ℕ → N (Unit {0})
dma page zero = pure tt
dma page (suc n) = do
  v ← cpu_ram_read (0x100 * page + (0x100 - suc n))
  ppu_sprram_write v
  dma page n

unfoldable pub memory_writeb : ℕ → ℕ → N (Unit {0})
memory_writeb address v =
    let word = u16 address in
    let byte = u8 v in
    let part = word >>> 13 in
    if word == 0x4014
    then dma byte 0x100
    else if part == 0
    then cpu_ram_write (bit_and word 0x7ff) byte
    else if part == 1
    then ppuio_write word byte
    else if part == 2
    then psgio_write word byte
    else if part == 3
    then cpu_ram_write (bit_and word 0x1fff) byte
    else mmc_write word byte

-- The low byte is read first; C leaves the order open.
unfoldable pub memory_readw : ℕ → N ℕ
memory_readw address = do
  low ← memory_readb address
  high ← memory_readb (u16 address + 1)
  pure (u16 (low + (high <<< 8)))

unfoldable pub memory_writew : ℕ → ℕ → N (Unit {0})
memory_writew address v = do
  memory_writeb address (bit_and (u16 v) 0xff)
  memory_writeb (u16 address + 1) (u16 v >>> 8)
