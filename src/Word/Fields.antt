-- ===== src/Word/Fields.antt =====
-- The bit-field macros as arithmetic: BITS is a quotient and a remainder, SEXT extends the sign.
use native.Mathlib.Nat.{mod-lt, one-le-pow, pow-le-pow_right, pow-suc}
use riscv32_cpu.Base.{
  ℕ, zero, suc, ◌+◌, ◌-◌, ◌*◌, ◌/◌, ◌%◌, ◌^◌, ◌≤◌, ◌<◌, ◌≡◌, arith, ltb, if◌then◌else◌,
}
use riscv32_cpu.Word.{bits, sext, u64, u32}
use riscv32_cpu.Word.Bits.{bit_and_mask}

-- BITS of a field of at most 63 bits takes the field out.
pub bits_lem : (x hi lo : ℕ) → hi - lo < 63 → bits x hi lo ≡ x / 2 ^ lo % 2 ^ (hi - lo + 1)
unfolding bits
bits_lem x hi lo narrow = ground (
  arith,
  bit_and_mask (hi - lo + 1) (x / 2 ^ lo),
  pow-le-pow_right {n = 2} (omega arith) {i = hi - lo + 1} {j = 63} (omega arith),
  one-le-pow (hi - lo + 1) 2,
)

-- The integer that a two's complement bit pattern of `width` bits stands for: `pos n` is n, and
-- `negsuc n` is -(n + 1).
pub data ℤ : Type 0 where
  pos : ℕ → ℤ
  negsuc : ℕ → ℤ

unfoldable pub signed : ℕ → ℕ → ℤ
signed width x = if ltb x (2 ^ (width - 1)) then pos x else negsuc (2 ^ width - x - 1)

-- The same with the half of the modulus named.
signed-sext_half :
    (x m h : ℕ)
    → m ≡ 2 * h
    → 0 < h
    → m ≤ 2 ^ 32
    → let n = x % m in
      let wide = if ltb n h then n else u64 (n + 2 ^ 64 - m) in
      (if ltb (u32 wide) (2 ^ 31) then pos (u32 wide) else negsuc (2 ^ 32 - u32 wide - 1))
      ≡ (if ltb n h then pos n else negsuc (m - n - 1))
signed-sext_half x m h twice some_bits fits =
    let below : x % m < m = mod-lt x {m = m} (omega arith) in ground (arith, below)

-- Cutting the 64-bit result of SEXT to a word keeps the signed value of the field.
pub signed-sext :
    (x len : ℕ) → 0 < len → len ≤ 32 → signed 32 (u32 (sext x len)) ≡ signed len (x % 2 ^ len)
unfolding signed sext
signed-sext x zero some_bits fits = absurd (omega arith)
signed-sext x (suc k) some_bits fits =
    let half : 2 ^ suc k ≡ 2 * 2 ^ k = omega (arith, pow-suc 2 k) in
    let less : suc k - 1 ≡ k = omega arith in
    rw less (
      signed-sext_half x (2 ^ suc k) (2 ^ k) half (one-le-pow k 2 (omega arith))
        (pow-le-pow_right (omega arith) fits))
