-- ===== src/Word/Digits.antt =====
-- Single binary digits of `&`, `|` and `^`.
use Prim.Native.Nat.{bit_xor, differ}
use native.Mathlib.Nat.{div-one, mul_assoc, pow-suc}
use riscv32_cpu.Base.{
  ℕ, zero, suc, ◌+◌, ◌*◌, ◌/◌, ◌%◌, ◌^◌, ◌<◌, min, max, bit_and, bit_or, ◌≡◌, refl, ap, ◌∙◌, arith,
}
use riscv32_cpu.Word.Bits.{bit_and-zero, bit_and_digit, bit_or_digit, bit_xor_digit}
use riscv32_cpu.Pattern.Split.{div-pow-suc}

-- The digit of a number at a position.
abbrev pub digit : ℕ → ℕ → ℕ
digit k x = x / 2 ^ k % 2

digit-suc : (k x : ℕ) → digit (suc k) x ≡ digit k (x / 2)
digit-suc k x = ap (λ t. t % 2) (div-pow-suc x k)

digit-zero : (x : ℕ) → digit 0 x ≡ x % 2
digit-zero x = ap (λ t. t % 2) (div-one x)

pub differ-lt : (a b : ℕ) → a < 2 → b < 2 → differ a b < 2
differ-lt zero b ha hb = hb
differ-lt (suc zero) zero ha hb = omega arith
differ-lt (suc zero) (suc zero) ha hb = omega arith
differ-lt (suc zero) (suc (suc b)) ha hb = absurd (omega arith)
differ-lt (suc (suc a)) b ha hb = absurd (omega arith)

-- An operation that works on the lowest digits and on the rest works on every digit.
digits_lem :
    (op one : ℕ → ℕ → ℕ)
    → ((a b : ℕ) → op a b ≡ op (a / 2) (b / 2) * 2 + one (a % 2) (b % 2))
    → ((a b : ℕ) → one (a % 2) (b % 2) < 2)
    → (k a b : ℕ) → digit k (op a b) ≡ one (digit k a) (digit k b)
digits_lem op one step small zero a b =
    rw (digit-zero a, digit-zero b) (digit-zero (op a b) ∙ omega (arith, step a b, small a b))
digits_lem op one step small (suc k) a b =
    let half : op a b / 2 ≡ op (a / 2) (b / 2) = omega (arith, step a b, small a b) in
    rw (digit-suc k a, digit-suc k b)
      (digit-suc k (op a b) ∙ ap (digit k) half ∙ digits_lem op one step small k (a / 2) (b / 2))

pub digit-bit_and : (k a b : ℕ) → digit k (bit_and a b) ≡ min (digit k a) (digit k b)
digit-bit_and = digits_lem bit_and min bit_and_digit (λ a b. omega arith)

pub digit-bit_or : (k a b : ℕ) → digit k (bit_or a b) ≡ max (digit k a) (digit k b)
digit-bit_or = digits_lem bit_or max bit_or_digit (λ a b. omega arith)

pub digit-bit_xor : (k a b : ℕ) → digit k (bit_xor a b) ≡ differ (digit k a) (digit k b)
digit-bit_xor =
    digits_lem bit_xor differ bit_xor_digit
      (λ a b. differ-lt (a % 2) (b % 2) (omega arith) (omega arith))

pub bit_xor-lt : (w a b : ℕ) → a < 2 ^ w → b < 2 ^ w → bit_xor a b < 2 ^ w
bit_xor-lt zero a b ha hb = ground arith
bit_xor-lt (suc w) a b ha hb =
    let low = differ-lt (a % 2) (b % 2) (omega arith) (omega arith) in
    let high =
      bit_xor-lt w (a / 2) (b / 2) (omega (arith, pow-suc 2 w)) (omega (arith, pow-suc 2 w)) in
    omega (arith, bit_xor_digit a b, pow-suc 2 w)

pub bit_or-lt : (w a b : ℕ) → a < 2 ^ w → b < 2 ^ w → bit_or a b < 2 ^ w
bit_or-lt zero a b ha hb = ground arith
bit_or-lt (suc w) a b ha hb =
    let high =
      bit_or-lt w (a / 2) (b / 2) (omega (arith, pow-suc 2 w)) (omega (arith, pow-suc 2 w)) in
    omega (arith, bit_or_digit a b, pow-suc 2 w)

pub bit_and-pow : (k x : ℕ) → bit_and x (2 ^ k) ≡ digit k x * 2 ^ k
bit_and-pow zero x = omega (arith, bit_and_digit x 1, bit_and-zero (x / 2), div-one x)
bit_and-pow (suc k) x =
    let even : 2 ^ suc k / 2 ≡ 2 ^ k = omega (arith, pow-suc 2 k) in
    let low : 2 ^ suc k % 2 ≡ 0 = omega (arith, pow-suc 2 k) in
    let high : bit_and (x / 2) (2 ^ suc k / 2) ≡ digit k (x / 2) * 2 ^ k =
      rw even (bit_and-pow k (x / 2)) in
    bit_and_digit x (2 ^ suc k)
    ∙ rw (low, high, digit-suc k x, pow-suc 2 k)
        (omega (arith, mul_assoc (digit k (x / 2)) (2 ^ k) 2))

pub differ-sum : (a b : ℕ) → a < 2 → b < 2 → differ a b ≡ (a + b) % 2
differ-sum zero zero ha hb = refl
differ-sum zero (suc zero) ha hb = refl
differ-sum (suc zero) zero ha hb = refl
differ-sum (suc zero) (suc zero) ha hb = refl
differ-sum zero (suc (suc b)) ha hb = absurd (omega arith)
differ-sum (suc zero) (suc (suc b)) ha hb = absurd (omega arith)
differ-sum (suc (suc a)) b ha hb = absurd (omega arith)
