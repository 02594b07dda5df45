-- ===== src/Tests/Pattern.antt =====
-- Runs of the pattern decoder.
use riscv32_cpu.Base.{ℕ, ◌≡◌, ◌↔◌, refl, inl, inr, true, List, [], ◌∷◌, ◌++◌, arith}
use riscv32_cpu.Fault.{Fault, ok, fault}
use riscv32_cpu.Pattern.{Key, pattern_decode, selects}
use riscv32_cpu.Pattern.Spec.{Matches}
use riscv32_cpu.Pattern.Correct.{pattern_decode-selects, pattern_decode-invalid}

-- "1? 0??"
abbrev pattern : List ℕ
pattern = b'1' ∷ b'?' ∷ b' ' ∷ b'0' ∷ b'?' ∷ b'?' ∷ []

pattern_run : pattern_decode pattern ≡ ok (record { key = 4; mask = 5; shift = 2 })
unfolding pattern_decode
pattern_run = refl

pattern_decode-selects_example :
    (k : Key) × (pattern_decode pattern ≡ ok k) × ((selects k 0x1b ≡ true) ↔ Matches pattern 0x1b)
pattern_decode-selects_example =
    pattern_decode-selects pattern 0x1b (refl, (refl, (refl, (refl, (refl, (refl, tt))))))
      (omega arith)

abbrev eight : List ℕ → List ℕ
eight str = b'0' ∷ b'0' ∷ b'0' ∷ b'0' ∷ b'1' ∷ b'1' ∷ b'1' ∷ b'?' ∷ str

-- 64 characters.
abbrev too_long : List ℕ
too_long = eight (eight (eight (eight (eight (eight (eight (eight [])))))))

pattern_decode-invalid_example :
    pattern_decode ((b'1' ∷ b' ' ∷ []) ++ b'2' ∷ b'0' ∷ []) ≡ fault Fault.assertion
pattern_decode-invalid_example =
    pattern_decode-invalid (b'1' ∷ b' ' ∷ []) b'2' (b'0' ∷ [])
      (inr (inr (inl refl)), (inl refl, tt)) (omega arith) (λ e. omega arith) (λ e. omega arith)
      (λ e. omega arith) (λ e. omega arith)
