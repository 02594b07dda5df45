-- ===== src/Pattern/Masked.antt =====
-- The decoder's numbers select exactly the words that the pattern describes.
use riscv32_cpu.Base.{
  ℕ, zero, suc, ◌+◌, ◌*◌, ◌/◌, ◌%◌, ◌^◌, ◌<◌, ◌≡◌, refl, sym, ◌∙◌, List, [], ◌∷◌, arith, bit_and,
  ◌↔◌,
}
use riscv32_cpu.Word.Bits.{bit_and-zero}
use riscv32_cpu.Pattern.Split.{bit_and_split, bit_and-lt, bit_and-one}
use riscv32_cpu.Pattern.Spec.{
  width, Matches, BitMatches, number, key_digit, mask_digit, key_of, mask_of, key_of-lt, mask_of-lt,
  key_digit-lt, mask_digit-lt,
}

-- Two numbers in base `p` are equal when their digits are.
same_digits :
    (p d e a b : ℕ) → d < 2 → e < 2 → a < p → b < p → d * p + a ≡ e * p + b → (d ≡ e) × (a ≡ b)
same_digits p zero zero a b hd he ha hb eq = omega arith
same_digits p zero (suc zero) a b hd he ha hb eq = absurd (omega arith)
same_digits p (suc zero) zero a b hd he ha hb eq = absurd (omega arith)
same_digits p (suc zero) (suc zero) a b hd he ha hb eq = omega arith
same_digits p (suc (suc d)) e a b hd he ha hb eq = absurd (omega arith)
same_digits p d (suc (suc e)) a b hd he ha hb eq = absurd (omega arith)

-- One digit of the comparison, as the decoder makes it and as the pattern means it.
BitMatches-iff :
    (c bit : ℕ) → bit < 2 → (bit_and bit (mask_digit c) ≡ key_digit c) ↔ BitMatches c bit
BitMatches-iff c zero low = ground arith
BitMatches-iff c (suc zero) low = ground arith
BitMatches-iff c (suc (suc b)) low = absurd (omega arith)

bit_and-mod : (x d : ℕ) → d < 2 → bit_and x d ≡ bit_and (x % 2) d
bit_and-mod x zero low = ground (arith, bit_and-zero x, bit_and-zero (x % 2))
bit_and-mod x (suc zero) low = omega (arith, bit_and-one x, bit_and-one (x % 2))
bit_and-mod x (suc (suc d)) low = absurd (omega arith)

-- The first character compares one bit, and the rest compares the bits below.
module _ (c : ℕ) (str : List ℕ) (x : ℕ) where
  abbrev high : ℕ
  high = bit_and (x / 2 ^ width str % 2) (mask_digit c)

  bit_and-mask_of-cons :
      bit_and x (mask_of (c ∷ str)) ≡ high * 2 ^ width str + bit_and x (mask_of str)
  unfolding number
  bit_and-mask_of-cons = rw (
    bit_and_split (width str) x (mask_digit c) (mask_of str) (mask_of-lt str),
    bit_and-mod (x / 2 ^ width str) (mask_digit c) (mask_digit-lt c),
  )

  cons_iff :
      (bit_and x (mask_of (c ∷ str)) ≡ key_of (c ∷ str))
      ↔ ((high ≡ key_digit c) × (bit_and x (mask_of str) ≡ key_of str))
  cons_iff = (
    λ same.
        same_digits (2 ^ width str) high (key_digit c) (bit_and x (mask_of str)) (key_of str)
          (bit_and-lt 1 (x / 2 ^ width str % 2) (mask_digit c) (mask_digit-lt c)) (key_digit-lt c)
          (bit_and-lt (width str) x (mask_of str) (mask_of-lt str)) (key_of-lt str)
          (sym bit_and-mask_of-cons ∙ same ∙ unfold number in refl),
    λ parts. bit_and-mask_of-cons ∙ rw (parts.0, parts.1) (unfold number in refl),
  )

pub masked_iff : (str : List ℕ) (x : ℕ) → (bit_and x (mask_of str) ≡ key_of str) ↔ Matches str x
masked_iff [] x = (λ same. tt, λ all. unfold number in bit_and-zero x)
masked_iff (c ∷ str) x =
    let bit = x / 2 ^ width str % 2 in
    let first = BitMatches-iff c bit (omega arith) in
    let rest = masked_iff str x in
    let both = cons_iff c str x in
    (
      λ same. (first.0 (both.0 same).0, rest.0 (both.0 same).1),
      λ all. both.1 (first.1 all.0, rest.1 all.1),
    )
