-- ===== src/Nes/Ppu/Vram.antt =====
-- The addresses of the picture unit's memory, and a write to it through the registers.
use riscv32_cpu.Base.{
  ℕ, ◌+◌, ◌-◌, ◌%◌, ◌<◌, Bool, true, ◌&&◌, ◌≡◌, refl, ap, sym, ◌∙◌, inl, inr, arith, ltb, leb, ◌==◌,
  if◌then◌else◌, all_below, all_below-at, ==_iff, Bool-cases,
}
use riscv32_cpu.Nes.Ppu.{ppu_get_real_ram_address}

-- The place of a 14-bit address in PPU_RAM: itself below the palette; from 0x3f00 on one of the
-- palette's 32 bytes, of which 16, 20, 24 and 28 are those at 0, 4, 8 and 12.
unfoldable pub place : ℕ → ℕ
place address =
    if ltb address 0x3f00
    then address
    else (let entry = address % 32 in
        if leb 16 entry && entry % 4 == 0 then 0x3f00 + (entry - 16) else 0x3f00 + entry)

real_test : ℕ → Bool
real_test i = ppu_get_real_ram_address (0x3f00 + i) == place (0x3f00 + i)

real_checked : all_below 0x100 real_test ≡ true
unfolding all_below real_test ppu_get_real_ram_address place
real_checked = refl

-- On every 14-bit address ppu_get_real_ram_address gives the place that is described without bit
-- operations: the address itself below 0x3f00, and from there on the byte of the palette with the number
-- `address % 32`, or 16 less where that is 16, 20, 24 or 28.
pub ppu_get_real_ram_address-place :
    (address : ℕ) → address < 0x4000 → ppu_get_real_ram_address address ≡ place address
ppu_get_real_ram_address-place address h = elim (Bool-cases (ltb address 0x3f00)) [
  | inl low ↦ unfold ppu_get_real_ram_address place in rw low refl
  | inr high ↦
      let i = address - 0x3f00 in
      let same : 0x3f00 + i ≡ address = ground arith in
      let tested : real_test i ≡ true =
        all_below-at 0x100 real_test i real_checked (ground arith) in
      let equal : ppu_get_real_ram_address (0x3f00 + i) ≡ place (0x3f00 + i) =
        unfold real_test in (==_iff _ _).0 tested in
      ap ppu_get_real_ram_address (sym same) ∙ equal ∙ ap place same
]

pub place-lt : (address : ℕ) → address < 0x4000 → place address < 0x4000
unfolding place
place-lt address h = ground arith
