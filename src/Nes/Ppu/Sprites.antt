-- ===== src/Nes/Ppu/Sprites.antt =====
-- am-kernels/kernels/litenes/src/ppu.c: the sprites of a line.
use riscv32_cpu.Base.{
  ℕ, zero, suc, ◌+◌, ◌-◌, ◌*◌, ◌<◌, bit_and, Bool, true, not, ◌&&◌, ◌||◌, ◌≡◌, arith, ltb, ◌==◌,
  if◌then◌else◌,
}
use riscv32_cpu.Word.{u16, ◌<<<◌}
use riscv32_cpu.State.{pure, get, put, ◌>>=◌, ◌>>◌}
use riscv32_cpu.Nes.Bit.{truth}
use riscv32_cpu.Nes.Ppu.{
  set_ppu, ppu_sprite_pattern_table_address, ppu_sprite_height, ppu_shows_background,
  ppu_set_sprite_overflow, ppu_set_sprite_0_hit, ppu_ram_read, ppu_l_h_addition_table,
  ppu_l_h_addition_flip_table,
}
use riscv32_cpu.Nes.Ppu.Render.{Video, V, on_nes, draw}

-- The test of the sprite 0, at the place (x, y) of the background.
unfoldable pub check_sprite_0_hit : ℕ → ℕ → ℕ → ℕ → V (Unit {0})
unfolding set_ppu
check_sprite_0_hit n x y color = do
  v ← get
  if ppu_shows_background v.nes.ppu
        && not v.ppu_sprite_hit_occured
        && n == 0
        && v.ppu_screen_background x y == color
      then (on_nes (set_ppu (ppu_set_sprite_0_hit true v.nes.ppu)) >>= λ u.
          get >>= λ w. put (record w { ppu_sprite_hit_occured = true }))
      else pure tt

unfoldable pub draw_sprite_pixel : ℕ → ℕ → ℕ → ℕ → ℕ → ℕ → V (Unit {0})
draw_sprite_pixel n sprite_x y palette_address color x = do
  let screen_x = sprite_x + x
  idx ← on_nes (ppu_ram_read (palette_address + color))
  draw screen_x (y + 1) idx
  check_sprite_0_hit n screen_x y color

-- The eight pixels of a row, with `k` to go. Color 0 is transparent.
unfoldable pub draw_sprite_pixels : ℕ → ℕ → ℕ → ℕ → (ℕ → ℕ) → ℕ → V (Unit {0})
draw_sprite_pixels n sprite_x y palette_address row zero = pure tt
draw_sprite_pixels n sprite_x y palette_address row (suc k) = do
  let x = 8 - suc k
  (if row x == 0 then pure tt else draw_sprite_pixel n sprite_x y palette_address (row x) x)
  draw_sprite_pixels n sprite_x y palette_address row k

-- The sprite whose four bytes start at `n`.
unfoldable pub draw_sprite : ℕ → V (Unit {0})
draw_sprite n = do
  v ← get
  let sprram = v.nes.ppu.ppu_sprram
  let vflip = truth (bit_and (sprram (n + 2)) 0x80)
  let hflip = truth (bit_and (sprram (n + 2)) 0x40)
  let tile_address = u16 (ppu_sprite_pattern_table_address v.nes.ppu + 16 * sprram (n + 1))
  let y_in_tile = bit_and v.scanline 7
  let row = if vflip then 7 - y_in_tile else y_in_tile
  l ← on_nes (ppu_ram_read (tile_address + row))
  h ← on_nes (ppu_ram_read (tile_address + row + 8))
  let palette_address = 0x3f10 + (bit_and (sprram (n + 2)) 3 <<< 2)
  let colors = if hflip then ppu_l_h_addition_flip_table l h else ppu_l_h_addition_table l h
  draw_sprite_pixels n (sprram (n + 3)) (sprram n + y_in_tile) palette_address colors 8

-- More than eight sprites on a line set the overflow; they are still drawn.
unfoldable pub count_sprite : ℕ → V (Unit {0})
unfolding set_ppu
count_sprite scanline_sprite_count = do
  v ← get
  if ltb 8 scanline_sprite_count
      then on_nes (set_ppu (ppu_set_sprite_overflow true v.nes.ppu))
      else pure tt

-- Whether a sprite at the height `sprite_y` is off the line.
unfoldable pub off_scanline : Video → ℕ → Bool
off_scanline v sprite_y =
    ltb v.scanline sprite_y || ltb (sprite_y + ppu_sprite_height v.nes.ppu) v.scanline

-- The sprites with `k` to go, after so many on the line.
unfoldable pub draw_sprites : ℕ → ℕ → V (Unit {0})
draw_sprites scanline_sprite_count zero = pure tt
draw_sprites scanline_sprite_count (suc k) = do
  let n = 0x100 - 4 * suc k
  v ← get
  if off_scanline v (v.nes.ppu.ppu_sprram n) then draw_sprites scanline_sprite_count k else do
    count_sprite (scanline_sprite_count + 1)
    draw_sprite n
    draw_sprites (scanline_sprite_count + 1) k

unfoldable pub ppu_draw_sprite_scanline : V (Unit {0})
ppu_draw_sprite_scanline = draw_sprites 0 0x40

-- A flipped row is the row from its other end.
pub flip_table_lem :
    (l h x : ℕ) → x < 8 → ppu_l_h_addition_flip_table l h x ≡ ppu_l_h_addition_table l h (7 - x)
unfolding ppu_l_h_addition_flip_table ppu_l_h_addition_table
flip_table_lem l h x small = let back : 7 - (7 - x) ≡ x = omega arith in rw back
