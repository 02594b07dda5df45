-- ===== src/Nes/Ppu.antt =====
-- am-kernels/kernels/litenes/src/ppu.c: the registers and the memory of the picture unit.
pub mod Vram
pub mod Ports
pub mod Render
pub mod Sprites
use riscv32_cpu.Base.{
  ℕ, ◌+◌, ◌-◌, ◌*◌, ◌%◌, ◌^◌, bit_and, bit_or, Bool, true, false, not, ◌||◌, ◌&&◌, List, [], ◌∷◌,
  ltb, leb, ◌==◌, if◌then◌else◌,
}
use Prim.Native.Nat.{bit_xor}
use riscv32_cpu.Fault.{Fault}
use riscv32_cpu.Word.{u8, u16, u32, ◌<<<◌, ◌>>>◌}
use riscv32_cpu.Machine.{Bytes, update}
use riscv32_cpu.State.{State, pure, stop_with, get, put, ◌>>=◌, ◌>>◌}
use riscv32_cpu.Nes.{PpuState, Nes, N}
use riscv32_cpu.Nes.Bit.{common_bit_set, common_modify_bitb}

-- PPUCTRL, PPUMASK and PPUSTATUS
unfoldable pub ppu_base_nametable_address : PpuState → ℕ
ppu_base_nametable_address ppu = 0x2000 + 0x400 * bit_and ppu.ppuctrl 3

unfoldable pub ppu_vram_address_increment : PpuState → ℕ
unfolding common_bit_set
ppu_vram_address_increment ppu = if common_bit_set ppu.ppuctrl 2 then 32 else 1

unfoldable pub ppu_sprite_pattern_table_address : PpuState → ℕ
unfolding common_bit_set
ppu_sprite_pattern_table_address ppu = if common_bit_set ppu.ppuctrl 3 then 0x1000 else 0

unfoldable pub ppu_background_pattern_table_address : PpuState → ℕ
unfolding common_bit_set
ppu_background_pattern_table_address ppu = if common_bit_set ppu.ppuctrl 4 then 0x1000 else 0

unfoldable pub ppu_sprite_height : PpuState → ℕ
unfolding common_bit_set
ppu_sprite_height ppu = if common_bit_set ppu.ppuctrl 5 then 16 else 8

unfoldable pub ppu_generates_nmi : PpuState → Bool
unfolding common_bit_set
ppu_generates_nmi ppu = common_bit_set ppu.ppuctrl 7

unfoldable pub ppu_shows_background_in_leftmost_8px : PpuState → Bool
unfolding common_bit_set
ppu_shows_background_in_leftmost_8px ppu = common_bit_set ppu.ppumask 1

unfoldable pub ppu_shows_background : PpuState → Bool
unfolding common_bit_set
ppu_shows_background ppu = common_bit_set ppu.ppumask 3

unfoldable pub ppu_shows_sprites : PpuState → Bool
unfolding common_bit_set
ppu_shows_sprites ppu = common_bit_set ppu.ppumask 4

unfoldable pub ppu_set_sprite_overflow : Bool → PpuState → PpuState
ppu_set_sprite_overflow yesno ppu = record ppu {
  ppustatus = common_modify_bitb ppu.ppustatus 5 yesno;
}

unfoldable pub ppu_set_sprite_0_hit : Bool → PpuState → PpuState
ppu_set_sprite_0_hit yesno ppu = record ppu { ppustatus = common_modify_bitb ppu.ppustatus 6 yesno }

unfoldable pub ppu_set_in_vblank : Bool → PpuState → PpuState
ppu_set_in_vblank yesno ppu = record ppu { ppustatus = common_modify_bitb ppu.ppustatus 7 yesno }

-- The mirrors of the palette; the cases of the name tables return the address as it is.
unfoldable pub ppu_get_real_ram_address : ℕ → ℕ
ppu_get_real_ram_address address =
    if ltb address 0x3f00
    then address
    else if ltb address 0x4000
    then (let mirrored = bit_or 0x3f00 (bit_and address 0x1f) in
        if mirrored == 0x3f10 || mirrored == 0x3f14 || mirrored == 0x3f18 || mirrored == 0x3f1c
        then mirrored - 0x10
        else mirrored)
    else 0xffff

-- PPU_RAM has 0x4000 bytes.
unfoldable pub ppu_ram_read : ℕ → N ℕ
unfolding ppu_get_real_ram_address
ppu_ram_read address = do
  s ← get
  let real = ppu_get_real_ram_address (u16 address)
  if ltb real 0x4000 then pure (s.ppu.ppu_ram real) else stop_with Fault.undefined

unfoldable pub ppu_ram_write : ℕ → ℕ → N (Unit {0})
unfolding ppu_get_real_ram_address update
ppu_ram_write address v = do
  s ← get
  let real = ppu_get_real_ram_address (u16 address)
  if ltb real 0x4000
      then put (record s { ppu = record (s.ppu) { ppu_ram = update s.ppu.ppu_ram real (u8 v) } })
      else stop_with Fault.undefined

-- memcpy of `length` bytes of `source` into the memory.
unfoldable pub copy_bytes : Bytes → ℕ → Bytes → ℕ → Bytes
copy_bytes m address source length j =
    if leb address j && ltb j (address + length) then source (j - address) else m j

unfoldable pub ppu_copy : ℕ → Bytes → ℕ → N (Unit {0})
unfolding copy_bytes
ppu_copy address source length = do
  s ← get
  if leb (address + length) 0x4000
      then put (record s {
        ppu = record (s.ppu) { ppu_ram = copy_bytes s.ppu.ppu_ram address source length };
      })
      else stop_with Fault.undefined

unfoldable pub set_ppu : PpuState → N (Unit {0})
set_ppu ppu = do s ← get; put (record s { ppu = ppu })

-- The three readable registers. Reading the status ends the vertical blank and the address latches.
unfoldable pub read_status : N ℕ
unfolding set_ppu ppu_set_in_vblank ppu_set_sprite_0_hit
read_status = do
  s ← get
  let value = s.ppu.ppustatus
  set_ppu (record (ppu_set_sprite_0_hit false (ppu_set_in_vblank false s.ppu)) {
    scroll_received_x = false;
    ppuscroll = 0;
    addr_received_high_byte = false;
    ppu_latch = value;
    ppu_addr_latch = 0;
    ppu_2007_first_read = true;
  })
  pure value

unfoldable pub read_oam : N ℕ
unfolding set_ppu
read_oam = do
  s ← get
  let value = s.ppu.ppu_sprram s.ppu.oamaddr
  set_ppu (record (s.ppu) { ppu_latch = value })
  pure value

unfoldable pub read_vram : N ℕ
unfolding set_ppu ppu_vram_address_increment
read_vram = do
  s ← get
  v ← ppu_ram_read s.ppu.ppuaddr
  set_ppu (record (s.ppu) { ppu_latch = if ltb s.ppu.ppuaddr 0x3f00 then v else 0 })
  t ← get
  if t.ppu.ppu_2007_first_read
      then set_ppu (record (t.ppu) { ppu_2007_first_read = false })
      else set_ppu
          (record (t.ppu) { ppuaddr = u16 (t.ppu.ppuaddr + ppu_vram_address_increment t.ppu) })
  pure v

unfoldable pub mask_ppuaddr : N (Unit {0})
unfolding set_ppu
mask_ppuaddr = do s ← get; set_ppu (record (s.ppu) { ppuaddr = bit_and s.ppu.ppuaddr 0x3fff })

unfoldable pub ppuio_read : ℕ → N ℕ
ppuio_read address = do
  mask_ppuaddr
  let register = bit_and address 7
  if register == 2
      then read_status
      else if register == 4
      then read_oam
      else if register == 7
      then read_vram
      else pure 0xff

unfoldable pub ppu_sprram_write : ℕ → N (Unit {0})
unfolding update set_ppu
ppu_sprram_write v = do
  s ← get
  set_ppu (record (s.ppu) {
    ppu_sprram = update s.ppu.ppu_sprram s.ppu.oamaddr (u8 v);
    oamaddr = u8 (s.ppu.oamaddr + 1);
  })

unfoldable pub write_scroll : ℕ → N (Unit {0})
unfolding set_ppu
write_scroll v = do
  s ← get
  if s.ppu.scroll_received_x
      then set_ppu (record (s.ppu) { ppuscroll_y = u8 v; scroll_received_x = false })
      else set_ppu (record (s.ppu) { ppuscroll_x = u8 v; scroll_received_x = true })

unfoldable pub write_addr : ℕ → N (Unit {0})
unfolding set_ppu
write_addr v = do
  s ← get
  if s.ppu.addr_received_high_byte
      then set_ppu (record (s.ppu) {
        ppuaddr = u16 ((s.ppu.ppu_addr_latch <<< 8) + u8 v);
        addr_received_high_byte = false;
        ppu_2007_first_read = true;
      })
      else set_ppu (record (s.ppu) {
        ppu_addr_latch = u8 v;
        addr_received_high_byte = true;
        ppu_2007_first_read = true;
      })

-- The address is not incremented.
unfoldable pub write_vram : ℕ → N (Unit {0})
write_vram v = do
  s ← get
  if ltb 0x1fff s.ppu.ppuaddr || ltb s.ppu.ppuaddr 0x4000
      then ppu_ram_write (bit_xor s.ppu.ppuaddr s.ppu.mirroring_xor) v
        >> ppu_ram_write s.ppu.ppuaddr v
      else ppu_ram_write s.ppu.ppuaddr v

unfoldable pub set_latch : ℕ → N (Unit {0})
unfolding set_ppu
set_latch v = do s ← get; set_ppu (record (s.ppu) { ppu_latch = u8 v })

unfoldable pub write_register : ℕ → ℕ → N (Unit {0})
unfolding set_ppu
write_register register v = do
  s ← get
  if register == 0
      then (if s.ppu.ready then set_ppu (record (s.ppu) { ppuctrl = u8 v }) else pure tt)
      else if register == 1
      then (if s.ppu.ready then set_ppu (record (s.ppu) { ppumask = u8 v }) else pure tt)
      else if register == 3
      then set_ppu (record (s.ppu) { oamaddr = u8 v })
      else if register == 4
      then ppu_sprram_write v
      else if register == 5
      then write_scroll v
      else if register == 6
      then (if s.ppu.ready then write_addr v else pure tt)
      else if register == 7
      then write_vram v
      else pure tt

-- The early return of register 6 skips only the second assignment of the latch, of the same value.
unfoldable pub ppuio_write : ℕ → ℕ → N (Unit {0})
ppuio_write address v = do
  set_latch v
  mask_ppuaddr
  write_register (bit_and address 7) v
  set_latch v

-- The bits of the two bytes of a row, as a color for each of its eight pixels: a table in the source.
unfoldable pub ppu_l_h_addition_table : ℕ → ℕ → ℕ → ℕ
ppu_l_h_addition_table l h x = bit_or (bit_and (h >>> (7 - x)) 1 <<< 1) (bit_and (l >>> (7 - x)) 1)

unfoldable pub ppu_l_h_addition_flip_table : ℕ → ℕ → ℕ → ℕ
ppu_l_h_addition_flip_table l h x = bit_or (bit_and (h >>> x) 1 <<< 1) (bit_and (l >>> x) 1)

unfoldable pub ppu_init : N (Unit {0})
unfolding set_ppu
ppu_init = do
  s ← get
  set_ppu (record (s.ppu) {
    ppuctrl = 0;
    ppumask = 0;
    ppustatus = bit_or 0 0xa0;
    oamaddr = 0;
    ppuscroll_x = 0;
    ppuscroll_y = 0;
    ppuaddr = 0;
    ppudata = 0;
    ppu_2007_first_read = true;
  })

unfoldable pub ppu_set_mirroring : ℕ → N (Unit {0})
unfolding set_ppu
ppu_set_mirroring mirroring = do
  s ← get
  set_ppu
      (record (s.ppu) { mirroring = u8 mirroring; mirroring_xor = u32 (0x400 <<< u8 mirroring) })
