-- ===== src/Nes/Cycle.antt =====
-- am-kernels/kernels/litenes/src/ppu.c: ppu_run and ppu_cycle, which run the processor and draw a
-- line, and fce_update_screen of fce.c. The times, which PROFILE alone prints, are left out.
use riscv32_cpu.Base.{
  ℕ, zero, suc, ◌+◌, ◌-◌, ◌*◌, ◌^◌, true, false, not, ◌&&◌, ◌||◌, none, some, ltb, ◌==◌,
  if◌then◌else◌, get_elem?,
}
use riscv32_cpu.Fault.{Fault}
use riscv32_cpu.Word.{u32}
use riscv32_cpu.State.{pure, stop_with, get, put, ◌>>=◌, ◌>>◌}
use riscv32_cpu.Nes.Ppu.{
  set_ppu, ppu_shows_background, ppu_shows_sprites, ppu_set_in_vblank, ppu_set_sprite_0_hit,
  ppu_ram_read,
}
use riscv32_cpu.Nes.Ppu.Render.{V, on_nes, palette, candraw, ppu_draw_background_scanline}
use riscv32_cpu.Nes.Ppu.Sprites.{ppu_draw_sprite_scanline}
use riscv32_cpu.Nes.Cpu.Run.{cpu_clock, cpu_run, cpu_interrupt}

-- The size of the host's screen, which the abstract machine reports.
pub record Screen : Type 0 where
  pub width : ℕ
  pub height : ℕ

-- The call that shows the canvas is output. `xpad < 0` is a width less than 255, since the division
-- rounds towards 0.
unfoldable pub fce_update_screen : Screen → V (Unit {0})
fce_update_screen cfg = do
  v ← get
  put (record v { frame_cnt = u32 (v.frame_cnt + 1) })
  if candraw (u32 (v.frame_cnt + 1))
      then (on_nes (ppu_ram_read 0x3f00) >>= λ idx. elim (get_elem? palette idx) [
        | none ↦ stop_with Fault.undefined
        | some bgc ↦
            if ltb (cfg.width + 1) 256 || ltb (cfg.height + 1) 240
            then stop_with Fault.panic
            else get >>= λ w.
                put (record w { canvas = λ i. if ltb i (256 * 240) then bgc else w.canvas i })
      ])
      else pure tt

unfoldable pub set_scanline : ℕ → V (Unit {0})
set_scanline scanline = do v ← get; put (record v { scanline = scanline })

-- The clock that the processor must have passed before the unit is ready.
unfoldable pub wake : V (Unit {0})
wake = do
  v ← get
  clock ← on_nes cpu_clock
  if not v.nes.ppu.ready && ltb 29658 clock
      then on_nes (set_ppu (record (v.nes.ppu) { ready = true }))
      else pure tt

unfoldable pub start_vblank : V (Unit {0})
start_vblank = do
  v ← get
  on_nes (set_ppu (ppu_set_sprite_0_hit false (ppu_set_in_vblank true v.nes.ppu)))
  on_nes cpu_interrupt

-- `scanline` is an `int`: -1 here, and from 0 to 262 when it is compared.
unfoldable pub end_frame : Screen → V (Unit {0})
end_frame cfg = do
  v ← get
  put (record v { scanline = 2 ^ 32 - 1; ppu_sprite_hit_occured = false })
  on_nes (set_ppu (ppu_set_in_vblank false v.nes.ppu))
  fce_update_screen cfg

unfoldable pub draw_background : V (Unit {0})
draw_background = do
  v ← get
  if ltb v.scanline 240 && ppu_shows_background v.nes.ppu
      then ppu_draw_background_scanline false >> ppu_draw_background_scanline true
      else pure tt

unfoldable pub draw_foreground : V (Unit {0})
draw_foreground = do
  v ← get
  if ltb v.scanline 240 && ppu_shows_sprites v.nes.ppu then ppu_draw_sprite_scanline else pure tt

-- `fuel` bounds the rounds of each call of cpu_run.
unfoldable pub ppu_cycle : Screen → ℕ → V (Unit {0})
unfolding set_scanline
ppu_cycle cfg fuel = do
  wake
  ended1 ← on_nes (cpu_run fuel 256)
  v ← get
  set_scanline (u32 (v.scanline + 1))
  draw_background
  ended2 ← on_nes (cpu_run fuel (85 - 16))
  draw_foreground
  ended3 ← on_nes (cpu_run fuel 16)
  w ← get
  if w.scanline == 241 then start_vblank else if w.scanline == 262 then end_frame cfg else pure tt

unfoldable pub ppu_run : Screen → ℕ → ℕ → V (Unit {0})
ppu_run cfg fuel zero = pure tt
ppu_run cfg fuel (suc cycles) = do ppu_cycle cfg fuel; ppu_run cfg fuel cycles
