-- ===== src/Nes/Ppu/Render.antt =====
-- am-kernels/kernels/litenes/src/ppu.c: the rendering of a line, and draw of fce.c.
use riscv32_cpu.Base.{
  ℕ, zero, suc, ◌+◌, ◌-◌, ◌*◌, ◌%◌, ◌^◌, bit_and, Bool, ◌&&◌, none, some, List, [], ◌∷◌, ltb, ◌==◌,
  if◌then◌else◌, get_elem?,
}
use riscv32_cpu.Fault.{Fault, Result, ok, fault}
use riscv32_cpu.Word.{u16, u32, ◌<<<◌, ◌>>>◌}
use riscv32_cpu.Machine.{update}
use riscv32_cpu.State.{State, pure, stop_with, get, put, ◌>>=◌, ◌>>◌}
use riscv32_cpu.Nes.{PpuState, Nes, N}
use riscv32_cpu.Nes.Ppu.{
  ppu_base_nametable_address, ppu_background_pattern_table_address,
  ppu_shows_background_in_leftmost_8px, ppu_ram_read, ppu_l_h_addition_table,
}

-- The machine with what only the rendering and the canvas use. `scanline` is one of the lines drawn.
pub record Video : Type 0 where
  pub nes : Nes
  pub scanline : ℕ
  pub ppu_screen_background : ℕ → ℕ → ℕ
  pub ppu_sprite_hit_occured : Bool
  pub frame_cnt : ℕ
  pub canvas : ℕ → ℕ

abbrev pub V : Type 0 → Type 0
V = State Video

-- A call of a function that does not use the rest.
put_back : {A : Type 0} → Video → Result (A × Nes) → Result (A × Video)
put_back v (ok (a, s)) = ok (a, record v { nes = s })
put_back v (fault f) = fault f

unfoldable pub on_nes : {A : Type 0} → N A → V A
unfolding put_back
on_nes call v = put_back v (call v.nes)

-- fce.h: the array of 64 colors
abbrev pub palette : List ℕ
palette =
    0x808080 ∷ 0x0000bb ∷ 0x3700bf ∷ 0x8400a6 ∷ 0xbb006a ∷ 0xb7001e ∷ 0xb30000 ∷ 0x912600 ∷ 0x7b2b00
    ∷ 0x003e00 ∷ 0x00480d ∷ 0x003c22 ∷ 0x002f66 ∷ 0x000000 ∷ 0x050505 ∷ 0x050505 ∷ 0xc8c8c8
    ∷ 0x0059ff ∷ 0x443cff ∷ 0xb733cc ∷ 0xff33aa ∷ 0xff375e ∷ 0xff371a ∷ 0xd54b00 ∷ 0xc46200
    ∷ 0x3c7b00 ∷ 0x1e8415 ∷ 0x009566 ∷ 0x0084c4 ∷ 0x111111 ∷ 0x090909 ∷ 0x090909 ∷ 0xffffff
    ∷ 0x0095ff ∷ 0x6f84ff ∷ 0xd56fff ∷ 0xff77cc ∷ 0xff6f99 ∷ 0xff7b59 ∷ 0xff915f ∷ 0xffa233
    ∷ 0xa6bf00 ∷ 0x51d96a ∷ 0x4dd5ae ∷ 0x00d9ff ∷ 0x666666 ∷ 0x0d0d0d ∷ 0x0d0d0d ∷ 0xffffff
    ∷ 0x84bfff ∷ 0xbbbbff ∷ 0xd0bbff ∷ 0xffbfea ∷ 0xffbfcc ∷ 0xffc4b7 ∷ 0xffccae ∷ 0xffd9a2
    ∷ 0xcce199 ∷ 0xaeeeb7 ∷ 0xaaf7ee ∷ 0xb3eeff ∷ 0xdddddd ∷ 0x111111 ∷ 0x111111 ∷ []

unfoldable pub candraw : ℕ → Bool
candraw frame_cnt = frame_cnt % 2 == 0

-- `x` is an `int`; an index that the palette does not have is undefined.
unfoldable pub draw : ℕ → ℕ → ℕ → V (Unit {0})
draw x y idx = do
  v ← get
  if ltb x 256 && ltb y 240 && candraw v.frame_cnt
      then elim (get_elem? palette idx) [
        | none ↦ stop_with Fault.undefined
        | some c ↦ put (record v { canvas = update v.canvas (y * 256 + x) c })
      ]
      else pure tt

-- `ppu_screen_background[x][y] = color`
unfoldable pub set_background : ℕ → ℕ → ℕ → V (Unit {0})
set_background x y color = do
  v ← get
  put (record v {
    ppu_screen_background = λ i.
        if i == x then update (v.ppu_screen_background i) y color else v.ppu_screen_background i;
  })

-- The quarter of the attribute byte for a tile.
unfoldable pub palette_attribute : ℕ → ℕ → ℕ → ℕ
palette_attribute scanline tile_x attribute =
    let half = if ltb (scanline % 32) 16 then attribute else attribute >>> 4 in
    bit_and (if ltb (tile_x % 4) 2 then half else half >>> 2) 3

-- The name table of a half of the background.
unfoldable pub nametable : PpuState → Bool → ℕ
nametable ppu mirror = ppu_base_nametable_address ppu + (if mirror then 0x400 else 0)

unfoldable pub draw_background_pixel : Bool → ℕ → ℕ → ℕ → V (Unit {0})
draw_background_pixel mirror tile_x color x = do
  v ← get
  attribute ← on_nes (
      ppu_ram_read
        (u16 (nametable v.nes.ppu mirror + 0x3c0 + (tile_x >>> 2) + (v.scanline >>> 5) * 8)))
  idx ←
      on_nes (ppu_ram_read (0x3f00 + (palette_attribute v.scanline tile_x attribute <<< 2) + color))
  set_background ((tile_x <<< 3) + x) v.scanline color
  draw (u32 ((tile_x <<< 3) + x + 2 ^ 32 - v.nes.ppu.ppuscroll_x + (if mirror then 256 else 0)))
      (v.scanline + 1) idx

-- The eight pixels of a row, with `n` to go. Color 0 is transparent.
unfoldable pub draw_background_pixels : Bool → ℕ → ℕ → ℕ → ℕ → V (Unit {0})
draw_background_pixels mirror tile_x l h zero = pure tt
draw_background_pixels mirror tile_x l h (suc n) = do
  let x = 8 - suc n
  let color = ppu_l_h_addition_table l h x
  (if color == 0 then pure tt else draw_background_pixel mirror tile_x color x)
  draw_background_pixels mirror tile_x l h n

unfoldable pub draw_background_tile : Bool → ℕ → V (Unit {0})
draw_background_tile mirror tile_x = do
  v ← get
  tile_index ←
      on_nes (ppu_ram_read (nametable v.nes.ppu mirror + tile_x + ((v.scanline >>> 3) <<< 5)))
  let tile_address = u16 (ppu_background_pattern_table_address v.nes.ppu + 16 * tile_index)
  let y_in_tile = bit_and v.scanline 7
  l ← on_nes (ppu_ram_read (tile_address + y_in_tile))
  h ← on_nes (ppu_ram_read (tile_address + y_in_tile + 8))
  draw_background_pixels mirror tile_x l h 8

-- The tiles of a line, with `n` to go.
unfoldable pub draw_background_tiles : Bool → ℕ → V (Unit {0})
draw_background_tiles mirror zero = pure tt
draw_background_tiles mirror (suc n) = do
  let tile_x = 32 - suc n
  v ← get
  (if ltb (256 + v.nes.ppu.ppuscroll_x) ((tile_x <<< 3) + (if mirror then 256 else 0))
      then pure tt
      else draw_background_tile mirror tile_x)
  draw_background_tiles mirror n

unfoldable pub ppu_draw_background_scanline : Bool → V (Unit {0})
ppu_draw_background_scanline mirror = do
  v ← get
  draw_background_tiles mirror (if ppu_shows_background_in_leftmost_8px v.nes.ppu then 32 else 31)
