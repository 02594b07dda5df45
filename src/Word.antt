-- ===== src/Word.antt =====
-- Fixed-width words as native numbers, and the bit-field macros of nemu/include/macro.h.
mod Step
pub mod Bits
pub mod Fields
pub mod Digits
use riscv32_cpu.Base.{ℕ, ◌+◌, ◌-◌, ◌*◌, ◌/◌, ◌%◌, ◌^◌, bit_and, ltb, if◌then◌else◌}

-- Conversion to `uint8_t`, `uint16_t`, `uint32_t` and `uint64_t`.
abbrev pub u8 : ℕ → ℕ
u8 n = n % 2 ^ 8

abbrev pub u16 : ℕ → ℕ
u16 n = n % 2 ^ 16

abbrev pub u32 : ℕ → ℕ
u32 n = n % 2 ^ 32

abbrev pub u64 : ℕ → ℕ
u64 n = n % 2 ^ 64

-- `x << k` before it is cut to a width, and `x >> k`.
infixl 72 ◌<<<◌ ◌>>>◌
abbrev pub ◌<<<◌ : ℕ → ℕ → ℕ
x <<< k = x * 2 ^ k

abbrev pub ◌>>>◌ : ℕ → ℕ → ℕ
x >>> k = x / 2 ^ k

-- BITMASK
unfoldable pub bitmask : ℕ → ℕ
bitmask bits = u64 (1 <<< bits) - 1

-- BITS
unfoldable pub bits : ℕ → ℕ → ℕ → ℕ
unfolding bitmask
bits x hi lo = bit_and (x >>> lo) (bitmask (hi - lo + 1))

-- SEXT: the value of a signed bit-field of `len` bits, converted to `uint64_t`.
unfoldable pub sext : ℕ → ℕ → ℕ
sext x len = let n = x % 2 ^ len in if ltb n (2 ^ (len - 1)) then n else u64 (n + 2 ^ 64 - 2 ^ len)
