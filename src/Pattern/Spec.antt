-- ===== src/Pattern/Spec.antt =====
-- What a pattern means, without the decoder: its significant characters, counted from the right,
-- stand for the bits of a word from the lowest up.
use native.Mathlib.Nat.{pow-succ'}
use riscv32_cpu.Base.{
  ℕ, suc, ◌+◌, ◌*◌, ◌/◌, ◌%◌, ◌^◌, ◌<◌, ◌≡◌, ◌⊎◌, inl, inr, refl, ap, ◌∙◌, arith, true, false, ◌||◌,
  List, [], ◌∷◌, ◌==◌, if◌then◌else◌,
}
use riscv32_cpu.Pattern.{is_digit}

-- The number of characters that are no spaces.
unfoldable pub width : List ℕ → ℕ
width [] = 0
width (c ∷ str) = (if c == b' ' then 0 else 1) + width str

-- Every character is a space or a digit.
abbrev pub IsPattern : List ℕ → Type 0
IsPattern [] = Unit
IsPattern (c ∷ str) = ((c == b' ' || is_digit c) ≡ true) × IsPattern str

-- The same with the codes of the characters: ' ', '0', '1' and '?'.
abbrev pub IsAllowed : ℕ → Type 0
IsAllowed c = (c ≡ 0x20) ⊎ (c ≡ 0x30) ⊎ (c ≡ 0x31) ⊎ (c ≡ 0x3f)

abbrev pub AreAllowed : List ℕ → Type 0
AreAllowed [] = Unit
AreAllowed (c ∷ str) = IsAllowed c × AreAllowed str

pub IsAllowed-test : (c : ℕ) → IsAllowed c → (c == b' ' || is_digit c) ≡ true
IsAllowed-test c (inl e) = rw e refl
IsAllowed-test c (inr (inl e)) = rw e refl
IsAllowed-test c (inr (inr (inl e))) = rw e refl
IsAllowed-test c (inr (inr (inr e))) = rw e refl

-- '1' wants a set bit, '0' a clear one, and any other character nothing.
abbrev pub BitMatches : ℕ → ℕ → Type 0
BitMatches c bit = if c == b'1' then bit ≡ 1 else (if c == b'0' then bit ≡ 0 else Unit)

abbrev pub Matches : List ℕ → ℕ → Type 0
Matches [] x = Unit
Matches (c ∷ str) x = BitMatches c (x / 2 ^ width str % 2) × Matches str x

-- A number read off a pattern by a digit for each significant character.
unfoldable pub number : (ℕ → ℕ) → List ℕ → ℕ
number digit [] = 0
number digit (c ∷ str) = digit c * 2 ^ width str + number digit str

-- The key has 1 for each '1', the mask for each '0' or '1'.
abbrev pub key_digit : ℕ → ℕ
key_digit c = if c == b'1' then 1 else 0

abbrev pub mask_digit : ℕ → ℕ
mask_digit c = if c == b'0' || c == b'1' then 1 else 0

abbrev pub key_of : List ℕ → ℕ
key_of str = number key_digit str

abbrev pub mask_of : List ℕ → ℕ
mask_of str = number mask_digit str

pub mask_digit-lt : (c : ℕ) → mask_digit c < 2
mask_digit-lt c = ground arith

pub key_digit-lt : (c : ℕ) → key_digit c < 2
key_digit-lt c = ground arith

pub pow-one-add : (w : ℕ) → 2 ^ (1 + w) ≡ 2 * 2 ^ w
pow-one-add w = ap (λ t. 2 ^ t) one_add ∙ pow-succ' 2 w
  where
    one_add : 1 + w ≡ suc w
    one_add = omega arith

pub pow-width-cons :
    (c : ℕ) (str : List ℕ) → (c == b' ') ≡ false → 2 ^ width (c ∷ str) ≡ 2 * 2 ^ width str
unfolding width
pow-width-cons c str digit = rw digit (pow-one-add (width str))

pub key_of-lt : (str : List ℕ) → key_of str < 2 ^ width str
unfolding number width
key_of-lt [] = omega arith
key_of-lt (c ∷ str) = ground (arith, key_of-lt str, pow-one-add (width str))

pub mask_of-lt : (str : List ℕ) → mask_of str < 2 ^ width str
unfolding number width
mask_of-lt [] = omega arith
mask_of-lt (c ∷ str) = ground (arith, mask_of-lt str, pow-one-add (width str))
