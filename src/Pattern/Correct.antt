-- ===== src/Pattern/Correct.antt =====
-- pattern_decode and the test of INSTPAT, on every string.
use riscv32_cpu.Base.{
  ℕ, zero, suc, ◌+◌, ◌*◌, ◌/◌, ◌^◌, ◌≤◌, ◌<◌, ◌≡◌, ◌≢◌, refl, true, false, ◌||◌, List, [], ◌∷◌,
  ◌++◌, arith, ◌==◌, length, bit_and, ◌↔◌, ==_iff, ne→not_==,
}
use riscv32_cpu.Fault.{Fault, ok, fault}
use riscv32_cpu.Pattern.{Key, is_digit, start, decode_loop, pattern_decode, selects}
use riscv32_cpu.Pattern.Spec.{
  width, IsPattern, AreAllowed, IsAllowed-test, Matches, key_of, mask_of,
}
use riscv32_cpu.Pattern.Loop.{shift_of, decode_loop_lem}
use riscv32_cpu.Pattern.Trail.{key_of-EndsIn, mask_of-EndsIn, shifted_iff}
use riscv32_cpu.Pattern.Masked.{masked_iff}

decoded : List ℕ → Key
decoded str = record {
  key = key_of str / 2 ^ shift_of str 0;
  mask = mask_of str / 2 ^ shift_of str 0;
  shift = shift_of str 0;
}

pattern_decode_lem :
    (str : List ℕ) → IsPattern str → length str < 64 → pattern_decode str ≡ ok (decoded str)
unfolding decoded pattern_decode
pattern_decode_lem str valid short =
    let key_whole : 0 * 2 ^ width str + key_of str ≡ key_of str = omega arith in
    let mask_whole : 0 * 2 ^ width str + mask_of str ≡ mask_of str = omega arith in
    rw (
      decode_loop_lem 64 str start
          (record { used = 0; room = omega arith; key = omega arith; mask = omega arith }) short
          valid,
      key_whole,
      mask_whole,
    )

selects-decoded_iff : (str : List ℕ) (x : ℕ) → (selects (decoded str) x ≡ true) ↔ Matches str x
unfolding decoded selects
selects-decoded_iff str x =
    let test = ==_iff (bit_and (x / 2 ^ shift_of str 0) (decoded str).mask) (decoded str).key in
    let shifted =
      shifted_iff (shift_of str 0) x (key_of str) (mask_of str) (key_of-EndsIn str)
        (mask_of-EndsIn str) in
    let masked = masked_iff str x in
    (λ h. masked.0 (shifted.0 (test.0 h)), λ m. test.1 (shifted.1 (masked.1 m)))

-- A string of at most 63 characters, all of them spaces or the digits '0', '1' and '?', decodes to
-- a key that selects a word exactly when the word's bits are those that the string describes.
pub pattern_decode-selects :
    (str : List ℕ) (x : ℕ)
    → IsPattern str
    → length str < 64
    → (k : Key) × (pattern_decode str ≡ ok k) × ((selects k x ≡ true) ↔ Matches str x)
pattern_decode-selects str x valid short =
    (decoded str, pattern_decode_lem str valid short, selects-decoded_iff str x)

-- The loop stops the process at 64 characters, and at the first that is no space and no digit.
decode_loop_too_long :
    (left : ℕ) (str : List ℕ) (k : Key)
    → IsPattern str
    → left ≤ length str
    → decode_loop left str k ≡ fault Fault.panic
unfolding decode_loop
decode_loop_too_long zero str k valid long = refl
decode_loop_too_long (suc left) [] k valid long = absurd (omega arith)
decode_loop_too_long (suc left) (c ∷ str) k valid long =
    rw (valid.0, decode_loop_too_long left str _ valid.1 (omega arith))

decode_loop_invalid :
    (left : ℕ) (before : List ℕ) (c : ℕ) (after : List ℕ) (k : Key)
    → IsPattern before
    → length before < left
    → (c == b' ' || is_digit c) ≡ false
    → decode_loop left (before ++ c ∷ after) k ≡ fault Fault.assertion
unfolding decode_loop
decode_loop_invalid zero before c after k valid room bad = absurd (omega arith)
decode_loop_invalid (suc left) [] c after k valid room bad = rw bad
decode_loop_invalid (suc left) (b ∷ before) c after k valid room bad =
    rw (valid.0, decode_loop_invalid left before c after _ valid.1 (omega arith) bad)

-- A string of 64 or more characters, all of them spaces or digits, ends the process: it is too long.
pub pattern_decode-too_long :
    (str : List ℕ) → IsPattern str → 64 ≤ length str → pattern_decode str ≡ fault Fault.panic
unfolding pattern_decode
pattern_decode-too_long str valid long = rw (decode_loop_too_long 64 str start valid long)

IsAllowed-IsPattern : (str : List ℕ) → AreAllowed str → IsPattern str
IsAllowed-IsPattern [] allowed = tt
IsAllowed-IsPattern (c ∷ str) allowed =
    (IsAllowed-test c allowed.0, IsAllowed-IsPattern str allowed.1)

-- A character other than ' ', '0', '1' and '?' fails the assertion, whatever follows it, if fewer
-- than 64 characters stand before it and each of these is one of the four.
pub pattern_decode-invalid :
    (before : List ℕ) (c : ℕ) (after : List ℕ)
    → AreAllowed before
    → length before < 64
    → c ≢ 0x20
    → c ≢ 0x30
    → c ≢ 0x31
    → c ≢ 0x3f
    → pattern_decode (before ++ c ∷ after) ≡ fault Fault.assertion
unfolding pattern_decode
pattern_decode-invalid before c after allowed short space nought one any =
    let bad : (c == b' ' || is_digit c) ≡ false =
      rw (ne→not_== c _ space, ne→not_== c _ nought, ne→not_== c _ one, ne→not_== c _ any) refl in
    rw (decode_loop_invalid 64 before c after start (IsAllowed-IsPattern before allowed) short bad)
