-- ===== src/Pattern/Loop.antt =====
-- The decoder's loop in closed form: it appends the pattern's digits to those read before.
use native.Mathlib.Nat.{pow-suc, pow-le-pow_right}
use riscv32_cpu.Base.{
  ℕ, zero, suc, ◌+◌, ◌*◌, ◌^◌, ◌≤◌, ◌<◌, ◌≡◌, refl, ap, true, false, ◌||◌, inl, inr, List, [], ◌∷◌,
  arith, ◌==◌, if◌then◌else◌, length, Bool-cases,
}
use riscv32_cpu.Fault.{ok}
use riscv32_cpu.Word.Bits.{bit_or-add}
use riscv32_cpu.Pattern.{Key, is_digit, take_char, decode_loop}
use riscv32_cpu.Pattern.Spec.{
  width, IsPattern, number, key_digit, mask_digit, key_of, mask_of, pow-width-cons,
}

-- How many '?' stand at the end, after `s` of them.
unfoldable pub shift_of : List ℕ → ℕ → ℕ
shift_of [] s = s
shift_of (c ∷ str) s = shift_of str (if c == b' ' then s else if c == b'?' then s + 1 else 0)

abbrev pub appended : List ℕ → Key → Key
appended str k = record {
  key = k.key * 2 ^ width str + key_of str;
  mask = k.mask * 2 ^ width str + mask_of str;
  shift = shift_of str k.shift;
}

-- The digits stay below the 64 bits of the accumulators, so no shift drops one.
pub record Fits (left : ℕ) (k : Key) : Type 0 where
  pub used : ℕ
  pub room : used + left ≤ 64
  pub key : k.key < 2 ^ used
  pub mask : k.mask < 2 ^ used

Fits-less : {left : ℕ} {k : Key} → Fits (suc left) k → Fits left k
Fits-less f = record { used = f.used; room = omega (arith, f.room); key = f.key; mask = f.mask }

take_char_key :
    (c : ℕ) (k : Key) {left : ℕ}
    → Fits (suc left) k
    → (take_char c k).key ≡ 2 * k.key + (if c == b'1' then 1 else 0)
unfolding take_char
take_char_key c k f = ground (
  arith,
  bit_or-add 1 k.key (if c == b'1' then 1 else 0),
  pow-le-pow_right {n = 2} (omega arith) {i = f.used} {j = 63} (omega (arith, f.room)),
)

take_char_mask :
    (c : ℕ) (k : Key) {left : ℕ}
    → Fits (suc left) k
    → (take_char c k).mask ≡ 2 * k.mask + (if c == b'?' then 0 else 1)
unfolding take_char
take_char_mask c k f = ground (
  arith,
  bit_or-add 1 k.mask (if c == b'?' then 0 else 1),
  pow-le-pow_right {n = 2} (omega arith) {i = f.used} {j = 63} (omega (arith, f.room)),
)

take_char-Fits : (c : ℕ) (k : Key) {left : ℕ} → Fits (suc left) k → Fits left (take_char c k)
take_char-Fits c k f = record {
  used = suc f.used;
  room = omega (arith, f.room);
  key = ground (arith, take_char_key c k f, pow-suc 2 f.used, f.key);
  mask = ground (arith, take_char_mask c k f, pow-suc 2 f.used, f.mask);
}

Key-ext : (j k : Key) → j.key ≡ k.key → j.mask ≡ k.mask → j.shift ≡ k.shift → j ≡ k
Key-ext j k p q r = λ i. record { key = p i; mask = q i; shift = r i }

-- A space changes nothing.
appended-space :
    (c : ℕ) (str : List ℕ) (k : Key) → (c == b' ') ≡ true → appended str k ≡ appended (c ∷ str) k
unfolding width number shift_of
appended-space c str k space =
    Key-ext (appended str k) (appended (c ∷ str) k) (ground arith) (ground arith) (ground arith)

move_digit : (a d p k : ℕ) → (2 * a + d) * p + k ≡ a * (2 * p) + (d * p + k)
move_digit a d p k = omega arith

-- A digit taken before the rest is the first digit of the whole.
appended-digit :
    (c : ℕ) (str : List ℕ) (k : Key) {left : ℕ}
    → Fits (suc left) k
    → (c == b' ') ≡ false
    → is_digit c ≡ true
    → appended str (take_char c k) ≡ appended (c ∷ str) k
appended-digit c str k f digit valid =
    Key-ext (appended str (take_char c k)) (appended (c ∷ str) k)
      (rw (take_char_key c k f, pow-width-cons c str digit)
        (unfold number in move_digit k.key (key_digit c) (2 ^ width str) (key_of str)))
      (rw (take_char_mask c k f, pow-width-cons c str digit, unmasked)
        (unfold number in move_digit k.mask (mask_digit c) (2 ^ width str) (mask_of str)))
      (unfold take_char shift_of in rw digit)
  where
    unmasked : ◌≡◌ {A = ℕ} (if c == b'?' then 0 else 1) (if c == b'0' || c == b'1' then 1 else 0)
    unmasked = ground arith

pub decode_loop_lem :
    (left : ℕ) (str : List ℕ) (k : Key)
    → Fits left k
    → length str < left
    → IsPattern str
    → decode_loop left str k ≡ ok (appended str k)
unfolding decode_loop
decode_loop_lem zero str k f short p = absurd (omega arith)
decode_loop_lem (suc left) [] k f short p = ap ok (
    Key-ext k (appended [] k) (unfold number width in omega arith)
      (unfold number width in omega arith) (unfold shift_of in refl))
decode_loop_lem (suc left) (c ∷ str) k f short p = elim (Bool-cases (c == b' ')) [
  | inl space ↦
      rw (space, decode_loop_lem left str k (Fits-less f) (omega arith) p.1)
        (ap ok (appended-space c str k space))
  | inr digit ↦
      rw
        (
          p.0,
          digit,
          decode_loop_lem left str (take_char c k) (take_char-Fits c k f) (omega arith) p.1,
        )
        (ap ok (appended-digit c str k f digit (ground (arith, p.0))))
]
