-- ===== src/Monitor/Text.antt =====
-- C strings, and the functions of the C library on them that the monitor calls: strcmp as a test of
-- equality, and strtok with a blank as the only delimiter.
use riscv32_cpu.Base.{
  ℕ, Bool, true, false, ◌&&◌, Option, none, some, List, [], ◌∷◌, ◌==◌, if◌then◌else◌,
}

-- The characters before the terminating zero.
abbrev pub Text : Type 0
Text = List ℕ

unfoldable pub same_text : Text → Text → Bool
same_text [] [] = true
same_text (c ∷ s) (d ∷ t) = c == d && same_text s t
same_text _ _ = false

unfoldable pub skip_blanks : Text → Text
skip_blanks [] = []
skip_blanks (c ∷ s) = let later = skip_blanks s in if c == b' ' then later else c ∷ s

-- The characters up to the first blank, and those behind it.
unfoldable pub cut : Text → Text × Text
cut [] = ([], [])
cut (c ∷ s) = let later = cut s in if c == b' ' then ([], s) else (c ∷ later.0, later.1)

abbrev pub non_empty : Text → Option Text
non_empty [] = none
non_empty (c ∷ s) = some (c ∷ s)

-- A first call of strtok: the token and what follows its delimiter, or NULL.
unfoldable pub strtok : Text → Option (Text × Text)
unfolding skip_blanks cut
strtok s = elim (skip_blanks s) [ [] ↦ none | c ∷ t ↦ some (cut (c ∷ t)) ]
