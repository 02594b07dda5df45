-- ===== src/Nes/Ppu/Ports.antt =====
-- A write to the picture unit's memory through the registers at 0x2006 and 0x2007.
use Prim.Native.Nat.{bit_xor}
use riscv32_cpu.Base.{
  ℕ, ◌+◌, ◌*◌, ◌^◌, ◌<◌, bit_and, true, false, inl, inr, Bool-cases, ◌||◌, ◌≡◌, ◌≢◌, refl, ◌∙◌,
  ◌==◌, if◌then◌else◌, ==_self, ne→not_==, arith, ltb, lt→ltb,
}
use riscv32_cpu.Word.{u8, u16}
use riscv32_cpu.Word.Bits.{bit_and_mask}
use riscv32_cpu.Word.Digits.{bit_xor-lt}
use riscv32_cpu.Fault.{ok}
use riscv32_cpu.Machine.{Bytes, update}
use riscv32_cpu.State.{get, put, ◌>>=◌}
use riscv32_cpu.Nes.{Nes}
use riscv32_cpu.Nes.Ppu.{
  ppu_ram_write, set_ppu, mask_ppuaddr, write_addr, write_vram, set_latch, write_register,
  ppuio_write,
}
use riscv32_cpu.Nes.Ppu.Vram.{place, place-lt, ppu_get_real_ram_address-place}

-- The memory with a byte at the place of an address.
abbrev pub with_byte : Bytes → ℕ → ℕ → Bytes
with_byte ram address v j = if j == place address then v else ram j

ppu_ram_write-lt :
    (address v : ℕ) (s : Nes)
    → address < 0x4000
    → ppu_ram_write address v s
      ≡ ok (
        tt,
        record s { ppu = record (s.ppu) { ppu_ram = with_byte s.ppu.ppu_ram address (u8 v) } },
      )
unfolding ppu_ram_write update ◌>>=◌ get put
ppu_ram_write-lt address v s h =
    let word : u16 address ≡ address = omega arith in
    rw (word, ppu_get_real_ram_address-place address h, lt→ltb _ _ (place-lt address h)) refl

-- The state after the address has been written.
abbrev addressed : Nes → ℕ → ℕ → Nes
addressed s h l = record s {
  ppu = record (s.ppu) {
    ppu_latch = l;
    ppuaddr = u16 (h * 2 ^ 8 + l);
    ppu_addr_latch = h;
    addr_received_high_byte = false;
    ppu_2007_first_read = true;
  };
}

module _ (s : Nes) (ready : s.ppu.ready ≡ true) where
  address_run :
      (h l : ℕ)
      → s.ppu.addr_received_high_byte ≡ false
      → h < 2 ^ 8
      → l < 2 ^ 8
      → (ppuio_write 0x2006 h >>= λ u. ppuio_write 0x2006 l) s ≡ ok (tt, addressed s h l)
  unfolding ◌>>=◌ ppuio_write set_latch mask_ppuaddr write_register write_addr set_ppu get put
  address_run h l first hh hl =
      let high : u8 h ≡ h = omega arith in
      let low : u8 l ≡ l = omega arith in rw (ready, first, high, low)

either : (a : ℕ) → (ltb 0x1fff a || ltb a 0x4000) ≡ true
either a = ground arith

write_vram_run :
    (v : ℕ) (s : Nes)
    → s.ppu.ppuaddr < 0x4000
    → s.ppu.mirroring_xor < 0x4000
    → v < 2 ^ 8
    → write_vram v s
      ≡ ok (
        tt,
        record s {
          ppu = record (s.ppu) {
            ppu_ram =
                with_byte
                  (with_byte s.ppu.ppu_ram (bit_xor s.ppu.ppuaddr s.ppu.mirroring_xor) v)
                  s.ppu.ppuaddr
                  v;
          };
        },
      )
unfolding write_vram ◌>>=◌ get
write_vram_run v s ha hm hv =
    let byte : u8 v ≡ v = omega arith in
    let mirror : bit_xor s.ppu.ppuaddr s.ppu.mirroring_xor < 0x4000 =
      bit_xor-lt 14 s.ppu.ppuaddr s.ppu.mirroring_xor ha hm in
    rw (
      either s.ppu.ppuaddr,
      ppu_ram_write-lt (bit_xor s.ppu.ppuaddr s.ppu.mirroring_xor) v s mirror,
      byte,
      ppu_ram_write-lt s.ppu.ppuaddr v _ ha,
      byte,
    )

-- The state in which the data is written.
abbrev latched : Nes → ℕ → ℕ → Nes
latched s a v = record s { ppu = record (s.ppu) { ppu_latch = v; ppuaddr = a } }

data_run :
    (v : ℕ) (s : Nes)
    → s.ppu.mirroring_xor < 0x4000
    → v < 2 ^ 8
    → ppuio_write 0x2007 v s
      ≡ (write_vram v >>= λ u. set_latch v) (latched s (bit_and s.ppu.ppuaddr 0x3fff) v)
unfolding ◌>>=◌ ppuio_write set_latch mask_ppuaddr write_register set_ppu get put
data_run v s hm hv = let byte : u8 v ≡ v = omega arith in rw byte

-- The byte at the first of two places, whether or not they are the same.
with_two : (a b v : ℕ) (ram : Bytes) → with_byte (with_byte ram b v) a v (place b) ≡ v
with_two a b v ram = elim (Bool-cases (place b == place a)) [
  | inl same ↦ rw same refl
  | inr apart ↦ rw (apart, ==_self (place b)) refl
]

-- Let the unit be ready and wait for a first half, the two halves be those of an address below 0x4000,
-- and `mirroring_xor` be below 0x4000. Then the two writes to 0x2006 and the write of a byte to 0x2007
-- return, the memory has the byte at the place of the address and at the place of its mirror, the
-- address with the bits of `mirroring_xor` inverted, and no other byte of it has changed; and the address
-- stays.
pub ppuio_write-address-data :
    (s : Nes) (h l v j : ℕ)
    → s.ppu.ready ≡ true
    → s.ppu.addr_received_high_byte ≡ false
    → s.ppu.mirroring_xor < 2 ^ 14
    → h < 0x40
    → l < 2 ^ 8
    → v < 2 ^ 8
    → j ≢ place (h * 2 ^ 8 + l)
    → j ≢ place (bit_xor (h * 2 ^ 8 + l) s.ppu.mirroring_xor)
    → (t : Nes) × (((ppuio_write 0x2006 h >>= λ u. ppuio_write 0x2006 l) >>= λ w.
            ppuio_write 0x2007 v)
          s
        ≡ ok (tt, t))
      × (t.ppu.ppuaddr ≡ h * 2 ^ 8 + l)
      × (t.ppu.ppu_latch ≡ v)
      × (t.ppu.ppu_ram (place (h * 2 ^ 8 + l)) ≡ v)
      × (t.ppu.ppu_ram (place (bit_xor (h * 2 ^ 8 + l) s.ppu.mirroring_xor)) ≡ v)
      × (t.ppu.ppu_ram j ≡ s.ppu.ppu_ram j)
unfolding ◌>>=◌ set_latch set_ppu get put
ppuio_write-address-data s h l v j ready first hm hh hl hv other mirror =
    let a = h * 2 ^ 8 + l in
    let cut : bit_and (u16 a) 0x3fff ≡ a = rw (bit_and_mask 14 (u16 a)) (omega arith) in
    let byte : u8 v ≡ v = omega arith in
    let run = write_vram_run v (latched (addressed s h l) a v) (omega arith) hm hv in
    let r = latched (addressed s h l) a v in
    let t = record r {
      ppu = record (r.ppu) {
        ppu_ram = with_byte (with_byte s.ppu.ppu_ram (bit_xor a s.ppu.mirroring_xor) v) a v;
      };
    } in
    (
      t,
      rw (address_run s ready h l first (omega arith) hl)
          (data_run v (addressed s h l) hm hv ∙ rw (cut, run, byte)),
      refl,
      refl,
      rw (==_self (place a)) refl,
      with_two a (bit_xor a s.ppu.mirroring_xor) v s.ppu.ppu_ram,
      rw (ne→not_== j _ other, ne→not_== j _ mirror) refl,
    )
