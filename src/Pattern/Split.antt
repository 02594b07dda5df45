-- ===== src/Pattern/Split.antt =====
-- `&` with a number that is cut in two at a bit position.
use native.Mathlib.Nat.{pow-suc, pow-succ', div-div-eq-div-mul}
use riscv32_cpu.Base.{ℕ, zero, suc, ◌+◌, ◌*◌, ◌/◌, ◌%◌, ◌^◌, ◌<◌, bit_and, ◌≡◌, sym, ap, ◌∙◌, arith}
use riscv32_cpu.Word.Bits.{bit_and-zero, bit_and_digit}

pub bit_and-one : (x : ℕ) → bit_and x 1 ≡ x % 2
bit_and-one x = omega (arith, bit_and_digit x 1, bit_and-zero (x / 2))

mul-pow-suc : (n w : ℕ) → n * 2 ^ suc w ≡ 2 * (n * 2 ^ w)
mul-pow-suc n w = omega (arith, ap (λ (t : ℕ). n * t) (pow-suc 2 w))

pub div-pow-suc : (x w : ℕ) → x / 2 ^ suc w ≡ x / 2 / 2 ^ w
div-pow-suc x w = ap (λ t. x / t) (pow-succ' 2 w) ∙ sym (div-div-eq-div-mul x 2 (2 ^ w))

-- The high part meets the high digits, the low part the low ones.
pub bit_and_split :
    (w x q r : ℕ)
    → r < 2 ^ w
    → bit_and x (q * 2 ^ w + r) ≡ bit_and (x / 2 ^ w) q * 2 ^ w + bit_and x r
bit_and_split zero x q r low = ground (arith, bit_and-zero x)
bit_and_split (suc w) x q r low = ground (
  arith,
  mul-pow-suc q w,
  mul-pow-suc (bit_and (x / 2 ^ suc w) q) w,
  div-pow-suc x w,
  bit_and_digit x (q * 2 ^ suc w + r),
  bit_and_digit x r,
  bit_and_split w (x / 2) q (r / 2) (omega (arith, pow-suc 2 w)),
)

pub bit_and-lt : (w x r : ℕ) → r < 2 ^ w → bit_and x r < 2 ^ w
bit_and-lt zero x r low = ground (arith, bit_and-zero x)
bit_and-lt (suc w) x r low = ground (
  arith,
  bit_and_digit x r,
  pow-suc 2 w,
  bit_and-lt w (x / 2) (r / 2) (omega (arith, pow-suc 2 w)),
)
