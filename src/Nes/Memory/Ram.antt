-- ===== src/Nes/Memory/Ram.antt =====
-- The two kilobytes of RAM, at the addresses below 0x2000.
use riscv32_cpu.Base.{
  ℕ, ◌+◌, ◌/◌, ◌%◌, ◌^◌, ◌<◌, bit_and, true, false, ◌≡◌, arith, inl, inr, Bool-cases, ◌==◌,
  ne→not_==, if◌then◌else◌,
}
use riscv32_cpu.Word.{u8, u16, ◌>>>◌, ◌<<<◌}
use riscv32_cpu.Word.Bits.{bit_and_mask}
use riscv32_cpu.Fault.{ok}
use riscv32_cpu.Machine.{update}
use riscv32_cpu.State.{pure, get, put, ◌>>=◌}
use riscv32_cpu.Nes.{Nes}
use riscv32_cpu.Nes.Memory.{
  cpu_ram_read, cpu_ram_write, memory_readb, memory_writeb, memory_readw, memory_writew,
}

-- The state with one byte of the RAM changed.
abbrev pub with_ram : Nes → ℕ → ℕ → Nes
with_ram s i v = record s { cpu_ram = update s.cpu_ram i v }

module _ (x : ℕ) (s : Nes) (low : x < 0x2000) where
  word : u16 x ≡ x
  word = omega arith

  part : (x >>> 13 == 0) ≡ true
  part = ground arith

  place : bit_and (bit_and x 0x7ff) 0x7ff ≡ x % 0x800
  place = rw (bit_and_mask 11 x, bit_and_mask 11 (x % 0x800)) (omega arith)

  pub memory_readb-ram : memory_readb x s ≡ ok (s.cpu_ram (x % 0x800), s)
  unfolding memory_readb cpu_ram_read ◌>>=◌ get pure
  memory_readb-ram = rw (word, part, place)

  pub memory_writeb-ram : (v : ℕ) → memory_writeb x v s ≡ ok (tt, with_ram s (x % 0x800) (u8 v))
  unfolding memory_writeb cpu_ram_write ◌>>=◌ get put
  memory_writeb-ram v =
      let other : (x == 0x4014) ≡ false = ne→not_== x 0x4014 (omega arith) in
      let byte : u8 (u8 v) ≡ u8 v = omega arith in rw (word, other, part, place, byte)

-- The two accesses to a word, which agree for addresses up to the last byte but one.
module _ (x : ℕ) (s : Nes) (low : x + 1 < 0x2000) where
  word_start : u16 x ≡ x
  word_start = omega arith

  pub memory_readw-ram :
      memory_readw x s ≡ ok (u16 (s.cpu_ram (x % 0x800) + (s.cpu_ram ((x + 1) % 0x800) <<< 8)), s)
  unfolding memory_readw ◌>>=◌ pure
  memory_readw-ram =
      rw (memory_readb-ram x s (omega arith), word_start, memory_readb-ram (x + 1) s low)

  pub memory_writew-ram :
      (v : ℕ)
      → v < 2 ^ 16
      → memory_writew x v s
        ≡ ok (tt, with_ram (with_ram s (x % 0x800) (v % 256)) ((x + 1) % 0x800) (v / 256))
  unfolding memory_writew ◌>>=◌
  memory_writew-ram v h =
      let cut : u16 v ≡ v = omega arith in
      let low_byte : u8 (bit_and v 0xff) ≡ v % 256 = rw (bit_and_mask 8 v) (omega arith) in
      let high_byte : u8 (v >>> 8) ≡ v / 256 = omega arith in
      rw (
        cut,
        memory_writeb-ram x s (omega arith) (bit_and v 0xff),
        word_start,
        memory_writeb-ram (x + 1) (with_ram s (x % 0x800) (u8 (bit_and v 0xff))) low (v >>> 8),
        low_byte,
        high_byte,
      )

-- The mirrors of the RAM: two addresses below 0x2000 that agree modulo 0x800 are one byte. After a
-- write at `x`, a read at `y` returns the value written, as a byte, where they agree, and what it
-- returned before where they do not.
pub memory_readb-memory_writeb :
    (x y v : ℕ) (s : Nes)
    → x < 0x2000
    → y < 0x2000
    → (memory_writeb x v >>= λ u. memory_readb y) s ≡ (
        if y % 0x800 == x % 0x800
        then ok (v % 256, record s { cpu_ram = update s.cpu_ram (x % 0x800) (v % 256) })
        else ok
            (s.cpu_ram (y % 0x800), record s { cpu_ram = update s.cpu_ram (x % 0x800) (v % 256) }))
unfolding ◌>>=◌ update
memory_readb-memory_writeb x y v s hx hy =
    rw (memory_writeb-ram x s hx v, memory_readb-ram y (with_ram s (x % 0x800) (u8 v)) hy)
      (elim (Bool-cases (y % 0x800 == x % 0x800)) [ inl same ↦ rw same | inr other ↦ rw other ])
