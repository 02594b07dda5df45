-- ===== src/Isa/Instpat.antt =====
-- The macro INSTPAT of nemu/include/cpu/decode.h, and its user's record Decode.
use Prim.Native.Char.{code}
use Prim.Native.String.{String}
use riscv32_cpu.Base.{ℕ, List, [], ◌∷◌, if◌then◌else◌}
use riscv32_cpu.Machine.{M, lift, ◌>>=◌}
use riscv32_cpu.Pattern.{pattern_decode, selects}

-- The characters of a string literal.
abbrev pub codes : String → List ℕ
codes String.[] = []
codes (String.◌∷◌ c s) = code c ∷ codes s

-- `struct Decode`; the log buffer is left out.
pub record Decode : Type 0 where
  pub pc : ℕ
  pub snpc : ℕ
  pub dnpc : ℕ
  pub inst : ℕ

-- One INSTPAT line: its body if the pattern selects the instruction, else the lines below it.
unfoldable pub instpat : {A : Type 0} → ℕ → String → M A → M A → M A
unfolding pattern_decode selects
instpat inst pattern body below = do
  k ← lift (pattern_decode (codes pattern))
  if selects k inst then body else below
