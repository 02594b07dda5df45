-- ===== src/Tests/Klib.antt =====
-- Runs of the C library's numbers.
use riscv32_cpu.Base.{◌≡◌, refl, [], ◌∷◌, ◌++◌, arith}
use riscv32_cpu.Fault.{ok}
use riscv32_cpu.Klib.{is_decimal, skip_spaces, atoi_loop, atoi}
use riscv32_cpu.Klib.Atoi.{value, characters, spaces, atoi-value}

atoi_run : atoi (b' ' ∷ b'4' ∷ b'2' ∷ b'x' ∷ []) ≡ ok 42
unfolding atoi atoi_loop skip_spaces is_decimal
atoi_run = refl

atoi-value_example :
    atoi (spaces 2 (characters (4 ∷ 0 ∷ 7 ∷ []) ++ b',' ∷ b'1' ∷ [])) ≡ ok (value (4 ∷ 0 ∷ 7 ∷ []))
atoi-value_example =
    atoi-value 2 4 (0 ∷ 7 ∷ []) (b',' ∷ b'1' ∷ []) (omega arith, (omega arith, (omega arith, tt)))
      (unfold is_decimal in refl) (unfold value in omega arith)
