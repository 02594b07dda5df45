-- ===== src/Klib.antt =====
-- abstract-machine/klib/src/stdlib.c on a 32-bit guest: the numbers of the C library.
pub mod Atoi
use riscv32_cpu.Base.{
  ℕ, ◌+◌, ◌-◌, ◌*◌, ◌/◌, ◌%◌, ◌^◌, Bool, ◌&&◌, List, [], ◌∷◌, ltb, leb, ◌==◌, if◌then◌else◌,
}
use riscv32_cpu.Fault.{Fault, Result, ok, fault}
use riscv32_cpu.Word.{u32}

-- The global `next` goes in and out.
unfoldable pub rand : ℕ → ℕ × ℕ
rand next =
    let stepped = u32 (next * 1103515245 + 12345) in (u32 (stepped / 65536) % 32768, stepped)

unfoldable pub srand : ℕ → ℕ → ℕ
srand seed next = u32 seed

unfoldable pub is_decimal : ℕ → Bool
is_decimal c = leb b'0' c && leb c b'9'

-- A string is the list of its characters before the terminating zero. An `int` that overflows is
-- undefined; the sum is taken from left to right.
unfoldable pub atoi_loop : ℕ → List ℕ → Result ℕ
unfolding is_decimal
atoi_loop x [] = ok x
atoi_loop x (c ∷ nptr) =
    let later = atoi_loop (x * 10 + c - b'0') nptr in
    if is_decimal c
    then (if ltb (x * 10 + c) (2 ^ 31) then later else fault Fault.undefined)
    else ok x

unfoldable pub skip_spaces : List ℕ → List ℕ
skip_spaces [] = []
skip_spaces (c ∷ nptr) = let later = skip_spaces nptr in if c == b' ' then later else c ∷ nptr

unfoldable pub atoi : List ℕ → Result ℕ
unfolding atoi_loop skip_spaces
atoi nptr = atoi_loop 0 (skip_spaces nptr)
