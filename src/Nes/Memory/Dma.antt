-- ===== src/Nes/Memory/Dma.antt =====
-- The transfer of a page of the RAM to the memory of the sprites.
use riscv32_cpu.Base.{
  ℕ, zero, suc, ◌+◌, ◌-◌, ◌*◌, ◌%◌, ◌^◌, ◌<◌, ◌≤◌, true, false, inl, inr, Bool-cases, ◌≡◌, ◌≢◌, ◌∙◌,
  arith, ltb, ◌==◌, if◌then◌else◌,
}
use riscv32_cpu.Word.{u8}
use riscv32_cpu.Word.Bits.{bit_and_mask}
use riscv32_cpu.Fault.{ok}
use riscv32_cpu.Machine.{Bytes, update}
use riscv32_cpu.State.{pure, get, put, ◌>>=◌}
use riscv32_cpu.Nes.{Nes}
use riscv32_cpu.Nes.Ppu.{set_ppu, ppu_sprram_write}
use riscv32_cpu.Nes.Memory.{cpu_ram_read, dma, memory_writeb}

-- The byte that the transfer takes for the index `i` of the page.
abbrev source : Nes → ℕ → ℕ → ℕ
source s page i = u8 (s.cpu_ram ((0x100 * page + i) % 0x800))

-- The state after one byte.
abbrev moved : Nes → ℕ → ℕ → Nes
moved s page i = record s {
  ppu = record (s.ppu) {
    ppu_sprram = update s.ppu.ppu_sprram s.ppu.oamaddr (source s page i);
    oamaddr = u8 (s.ppu.oamaddr + 1);
  };
}

move_run : (s : Nes) (page n : ℕ) → dma page (suc n) s ≡ dma page n (moved s page (0x100 - suc n))
unfolding dma cpu_ram_read ppu_sprram_write set_ppu ◌>>=◌ get put pure
move_run s page n = rw (bit_and_mask 11 (0x100 * page + (0x100 - suc n)))

-- How far a place of the memory lies from the address.
abbrev distance : ℕ → ℕ → ℕ
distance q o = (q + 0x100 - o) % 0x100

-- The place `q` with `n` bytes to go.
abbrev filled : Nes → ℕ → ℕ → ℕ → ℕ
filled s page n q =
    if ltb (distance q s.ppu.oamaddr) n
    then source s page (0x100 - n + distance q s.ppu.oamaddr)
    else s.ppu.ppu_sprram q

filled-step :
    (s : Nes) (page n q : ℕ)
    → n < 0x100
    → s.ppu.oamaddr < 0x100
    → q < 0x100
    → filled (moved s page (0x100 - suc n)) page n q ≡ filled s page (suc n) q
unfolding update
filled-step s page n q small ho hq = elim (Bool-cases (q == s.ppu.oamaddr)) [
  | inl here ↦
      let o = s.ppu.oamaddr in
      let same : q ≡ o = ground arith in
      let start : distance q o ≡ 0 = omega arith in
      let end : distance q (u8 (o + 1)) ≡ 0xff = omega arith in
      let far : ltb 0xff n ≡ false = ground arith in
      let near : ltb 0 (suc n) ≡ true = ground arith in
      let place : 0x100 - suc n + 0 ≡ 0x100 - suc n = omega arith in
      rw (end, far, here, start, near, place)
  | inr there ↦
      let o = s.ppu.oamaddr in
      let other : q ≢ o = ground arith in
      let back : distance q (u8 (o + 1)) ≡ distance q o - 1 = omega arith in
      let less : ltb (distance q o - 1) n ≡ ltb (distance q o) (suc n) = ground arith in
      let place : 0x100 - n + (distance q o - 1) ≡ 0x100 - suc n + distance q o = omega arith in
      rw (back, less, place, there)
]

-- The state with that memory and the address moved on by `n`.
abbrev transferred : Nes → ℕ → ℕ → Bytes → Nes
transferred s page n sprram = record s {
  ppu = record (s.ppu) { ppu_sprram = sprram; oamaddr = (s.ppu.oamaddr + n) % 0x100 };
}

dma_run :
    (page n : ℕ) (s : Nes)
    → n ≤ 0x100
    → s.ppu.oamaddr < 0x100
    → (sprram : Bytes) × (dma page n s ≡ ok (tt, transferred s page n sprram))
      × ((q : ℕ) → q < 0x100 → sprram q ≡ filled s page n q)
unfolding dma pure
dma_run page zero s all ho =
    let stay : (s.ppu.oamaddr + 0) % 0x100 ≡ s.ppu.oamaddr = omega arith in
    (s.ppu.ppu_sprram, rw stay, λ q hq. rest q)
  where
    rest : (q : ℕ) → s.ppu.ppu_sprram q ≡ filled s page 0 q
    rest q = let none : ltb (distance q s.ppu.oamaddr) 0 ≡ false = ground arith in rw none
dma_run page (suc n) s all ho =
    let first = moved s page (0x100 - suc n) in
    let later = dma_run page n first (omega arith) (omega arith) in
    let moved_on : (u8 (s.ppu.oamaddr + 1) + n) % 0x100 ≡ (s.ppu.oamaddr + suc n) % 0x100 =
      omega arith in
    (
      later.0,
      move_run s page n ∙ later.1 ∙ rw moved_on,
      λ q hq. later.2 q hq ∙ filled-step s page n q (omega arith) ho hq,
    )

whole : 0x100 ≤ 0x100
whole = omega arith

-- A write of the number of a page to 0x4014: the call returns, the byte `j` of the page of the RAM, for
-- each `j` below 256, is in the memory of the sprites at the place `j` after the address, modulo
-- 256, and the address is the one before; and of the state nothing but that memory has changed.
pub memory_writeb-dma :
    (page j : ℕ) (s : Nes)
    → page < 2 ^ 8
    → j < 2 ^ 8
    → s.ppu.oamaddr < 2 ^ 8
    → (t : Nes) × (memory_writeb 0x4014 page s ≡ ok (tt, t))
      × (t ≡ record s { ppu = record (s.ppu) { ppu_sprram = t.ppu.ppu_sprram } })
      × (t.ppu.ppu_sprram ((s.ppu.oamaddr + j) % 2 ^ 8)
          ≡ s.cpu_ram ((page * 2 ^ 8 + j) % 0x800) % 2 ^ 8)
unfolding memory_writeb
memory_writeb-dma page j s hp hj ho =
    let byte : u8 page ≡ page = omega arith in
    let o = s.ppu.oamaddr in
    let run = dma_run page 0x100 s whole ho in
    let stay : (o + 0x100) % 0x100 ≡ o = omega arith in
    let far : distance ((o + j) % 0x100) o ≡ j = omega arith in
    let inside : ltb j 0x100 ≡ true = ground arith in
    let place : 0x100 * page + (0x100 - 0x100 + j) ≡ page * 2 ^ 8 + j = omega arith in
    (
      transferred s page 0x100 run.0,
      rw byte run.1,
      rw stay,
      run.2 ((o + j) % 0x100) (omega arith) ∙ rw (far, inside, place),
    )
