-- ===== src/Word/Bits.antt =====
-- `&` with a mask of low ones, and `|` of numbers that share no digit, as arithmetic at every width.
use native.Mathlib.Nat.{pow-suc, one-le-pow}
use riscv32_cpu.Base.{
  ℕ, zero, suc, ◌+◌, ◌-◌, ◌*◌, ◌/◌, ◌%◌, ◌^◌, ◌≤◌, ◌<◌, bit_and, bit_or, ◌≡◌, refl, ap, arith,
}
pub use riscv32_cpu.Word.Step.{bit_and_digit, bit_or_digit, bit_xor_digit}

-- Halving a number below `n + 1` gives one below `n`, so `n` bounds the depth of the recursion.
bit_and-zero_below : (n a : ℕ) → a ≤ n → bit_and a 0 ≡ 0
bit_and-zero_below n zero below = refl
bit_and-zero_below zero (suc a) below = absurd (omega arith)
bit_and-zero_below (suc n) (suc a) below =
    omega (arith, bit_and_digit (suc a) 0, bit_and-zero_below n (suc a / 2) (omega arith))

pub bit_and-zero : (a : ℕ) → bit_and a 0 ≡ 0
bit_and-zero a = bit_and-zero_below a a (omega arith)

bit_or-zero_below : (n a : ℕ) → a ≤ n → bit_or a 0 ≡ a
bit_or-zero_below n zero below = refl
bit_or-zero_below zero (suc a) below = absurd (omega arith)
bit_or-zero_below (suc n) (suc a) below =
    omega (arith, bit_or_digit (suc a) 0, bit_or-zero_below n (suc a / 2) (omega arith))

pub bit_or-zero : (a : ℕ) → bit_or a 0 ≡ a
bit_or-zero a = bit_or-zero_below a a (omega arith)

-- The remainder by a power of two, from that of the half.
mod-double : (a k : ℕ) → 0 < k → a % (2 * k) ≡ a / 2 % k * 2 + a % 2
mod-double a k pos = grind arith

-- A mask of `k` low ones is the remainder by `2 ^ k`.
pub bit_and_mask : (k a : ℕ) → bit_and a (2 ^ k - 1) ≡ a % 2 ^ k
bit_and_mask zero a = omega (arith, bit_and-zero a)
bit_and_mask (suc k) a = ground (
  arith,
  bit_and_digit a (2 ^ suc k - 1),
  bit_and_mask k (a / 2),
  pow-suc 2 k,
  one-le-pow k 2,
  mod-double a (2 ^ k) (omega (arith, one-le-pow k 2)),
)

-- `|` of a multiple of `2 ^ k` and a number below `2 ^ k` is their sum.
pub bit_or-add : (k q r : ℕ) → r < 2 ^ k → bit_or (q * 2 ^ k) r ≡ q * 2 ^ k + r
bit_or-add zero q r fits = ground (arith, bit_or-zero q)
bit_or-add (suc k) q r fits =
    let twice : q * 2 ^ suc k ≡ 2 * (q * 2 ^ k) =
      omega (arith, ap (λ (t : ℕ). q * t) (pow-suc 2 k)) in
    ground (
      arith,
      twice,
      bit_or_digit (q * 2 ^ suc k) r,
      bit_or-add k q (r / 2) (omega (arith, pow-suc 2 k)),
    )
