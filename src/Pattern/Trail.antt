-- ===== src/Pattern/Trail.antt =====
-- The '?' at the end of a pattern leave as many zero digits at the end of its key and its mask, so
-- the shifts at the decoder's end lose nothing.
use native.Mathlib.Nat.{pow-suc, one-le-pow, mul-div_left, eq_of_mul-eq-mul_right}
use riscv32_cpu.Base.{
  ℕ, suc, ◌+◌, ◌*◌, ◌/◌, ◌^◌, ◌<◌, ◌≡◌, ap, ◌∙◌, true, false, ◌||◌, inl, inr, List, [], ◌∷◌, arith,
  ◌==◌, Bool-cases, bit_and, ◌↔◌,
}
use riscv32_cpu.Word.Bits.{bit_and-zero}
use riscv32_cpu.Pattern.Split.{bit_and_split}
use riscv32_cpu.Pattern.Spec.{width, number, key_digit, mask_digit, key_of, mask_of, pow-width-cons}
use riscv32_cpu.Pattern.Loop.{shift_of}

-- `n` ends in `s` zero digits.
abbrev pub EndsIn : ℕ → ℕ → Type 0
EndsIn n s = (q : ℕ) × (n ≡ q * 2 ^ s)

EndsIn-double : (n s : ℕ) → EndsIn n s → EndsIn (2 * n + 0) (s + 1)
EndsIn-double n s (q, e) =
    (q, omega (arith, e, next, ap (λ (t : ℕ). q * t) next, ap (λ (t : ℕ). q * t) (pow-suc 2 s)))
  where
    next : 2 ^ (s + 1) ≡ 2 ^ suc s
    next = ap (λ t. 2 ^ t) (omega arith)

EndsIn-zero : (n : ℕ) → EndsIn n 0
EndsIn-zero n = (n, omega arith)

-- A digit function that has 0 at '?' and at a space.
module _ (digit : ℕ → ℕ) (clear : (c : ℕ) → (c == b'?' || c == b' ') ≡ true → digit c ≡ 0) where
  number-cons-visible :
      (c : ℕ) (str : List ℕ) (a : ℕ)
      → (c == b' ') ≡ false
      → a * 2 ^ width (c ∷ str) + number digit (c ∷ str)
        ≡ (2 * a + digit c) * 2 ^ width str + number digit str
  unfolding number
  number-cons-visible c str a visible = rw (pow-width-cons c str visible) (omega arith)

  number-cons-space :
      (c : ℕ) (str : List ℕ) (a : ℕ)
      → (c == b' ') ≡ true
      → a * 2 ^ width (c ∷ str) + number digit (c ∷ str) ≡ a * 2 ^ width str + number digit str
  unfolding number width
  number-cons-space c str a space =
      let no_width : 0 + width str ≡ width str = omega arith in
      rw (space, clear c (ground arith), no_width) (omega arith)

  pub number-EndsIn :
      (str : List ℕ) (a s : ℕ)
      → EndsIn a s
      → EndsIn (a * 2 ^ width str + number digit str) (shift_of str s)
  unfolding shift_of
  number-EndsIn [] a s ends = unfold width number in rw (← whole) ends
    where
      whole : a ≡ a * 2 ^ 0 + 0
      whole = omega arith
  number-EndsIn (c ∷ str) a s ends = elim (Bool-cases (c == b' ')) [
    | inl space ↦ rw (space, number-cons-space c str a space) (number-EndsIn str a s ends)
    | inr visible ↦
        rw (visible, number-cons-visible c str a visible)
          (elim (Bool-cases (c == b'?')) [
            | inl any ↦
                rw (any, clear c (ground arith))
                  (number-EndsIn str (2 * a + 0) (s + 1) (EndsIn-double a s ends))
            | inr fixed ↦
                rw fixed (number-EndsIn str (2 * a + digit c) 0 (EndsIn-zero (2 * a + digit c)))
          ])
  ]

pub key_of-EndsIn : (str : List ℕ) → EndsIn (key_of str) (shift_of str 0)
key_of-EndsIn str =
    let whole : 0 * 2 ^ width str + key_of str ≡ key_of str = omega arith in
    rw whole at (number-EndsIn key_digit (λ c h. ground arith) str 0 0 (EndsIn-zero 0))

pub mask_of-EndsIn : (str : List ℕ) → EndsIn (mask_of str) (shift_of str 0)
mask_of-EndsIn str =
    let whole : 0 * 2 ^ width str + mask_of str ≡ mask_of str = omega arith in
    rw whole at (number-EndsIn mask_digit (λ c h. ground arith) str 0 0 (EndsIn-zero 0))

-- Comparing the shifted numbers is comparing the whole ones.
pub shifted_iff :
    (s x key mask : ℕ)
    → EndsIn key s
    → EndsIn mask s
    → (bit_and (x / 2 ^ s) (mask / 2 ^ s) ≡ key / 2 ^ s) ↔ (bit_and x mask ≡ key)
shifted_iff s x key mask (p, ek) (q, em) =
    let full : 0 < 2 ^ s = one-le-pow s 2 (omega arith) in
    let key_shifted : key / 2 ^ s ≡ p = rw ek (mul-div_left p full) in
    let mask_shifted : mask / 2 ^ s ≡ q = rw em (mul-div_left q full) in
    let whole : bit_and x mask ≡ bit_and (x / 2 ^ s) q * 2 ^ s =
      rw em (ap (bit_and x) no_low ∙ bit_and_split s x q 0 full ∙ drop_low) in
    rw (key_shifted, mask_shifted, whole, ek)
      (
        λ same. ap (λ t. t * 2 ^ s) same,
        λ same. eq_of_mul-eq-mul_right (2 ^ s) full (bit_and (x / 2 ^ s) q) p same,
      )
  where
    no_low : q * 2 ^ s ≡ q * 2 ^ s + 0
    no_low = omega arith

    drop_low : bit_and (x / 2 ^ s) q * 2 ^ s + bit_and x 0 ≡ bit_and (x / 2 ^ s) q * 2 ^ s
    drop_low = omega (arith, bit_and-zero x)
