-- ===== src/Klib/Atoi.antt =====
-- The number that atoi reads, and the range of rand.
use native.Mathlib.Nat.{pow-succ', one-le-pow}
use riscv32_cpu.Base.{
  ℕ, zero, suc, ◌+◌, ◌-◌, ◌*◌, ◌^◌, ◌≤◌, ◌<◌, ◌≡◌, refl, ap, ◌∙◌, true, false, List, [], ◌∷◌, ◌++◌,
  arith, length, map, ltb, lt→ltb, ◌==◌,
}
use riscv32_cpu.Fault.{ok}
use riscv32_cpu.Klib.{rand, is_decimal, atoi_loop, skip_spaces, atoi}

-- Digits with the most significant one first, each by the place that it has from the right.
unfoldable pub value : List ℕ → ℕ
value [] = 0
value (d ∷ ds) = d * 10 ^ length ds + value ds

abbrev pub IsDigits : List ℕ → Type 0
IsDigits [] = Unit
IsDigits (d ∷ ds) = (d < 10) × IsDigits ds

-- A string that does not go on with a digit.
abbrev pub Stops : List ℕ → Type 0
Stops [] = Unit
Stops (c ∷ str) = is_decimal c ≡ false

abbrev pub characters : List ℕ → List ℕ
characters = map (λ d. b'0' + d)

abbrev pub spaces : ℕ → List ℕ → List ℕ
spaces zero str = str
spaces (suc n) str = b' ' ∷ spaces n str

place : (x d p v : ℕ) → (x * 10 + d) * p + v ≡ x * (10 * p) + (d * p + v)
place x d p v = grind arith

below : (y p v : ℕ) → 1 ≤ p → y ≤ y * p + v
below y p v h = grind arith

loop_lem :
    (x : ℕ) (ds rest : List ℕ)
    → IsDigits ds
    → Stops rest
    → x * 10 ^ length ds + value ds + 48 < 2 ^ 31
    → atoi_loop x (characters ds ++ rest) ≡ ok (x * 10 ^ length ds + value ds)
unfolding atoi_loop value is_decimal
loop_lem x [] [] digits stop fits = ap ok (omega arith)
loop_lem x [] (c ∷ str) digits stop fits = rw stop (ap ok (omega arith))
loop_lem x (d ∷ ds) rest digits stop fits =
    let p = 10 ^ length ds in
    let y = x * 10 + d in
    let grown : 10 ^ length (d ∷ ds) ≡ 10 * p = pow-succ' 10 (length ds) in
    let same : y * p + value ds ≡ x * 10 ^ length (d ∷ ds) + (d * p + value ds) =
      rw grown (place x d p (value ds)) in
    let small : y ≤ y * p + value ds =
      below y p (value ds) (one-le-pow (length ds) 10 (omega arith)) in
    let decimal : is_decimal (b'0' + d) ≡ true = ground (arith, digits.0) in
    let room : ltb (x * 10 + (b'0' + d)) (2 ^ 31) ≡ true = lt→ltb _ _ (omega arith) in
    let shifted : x * 10 + (b'0' + d) - b'0' ≡ y = omega arith in
    rw (decimal, room, shifted) (loop_lem y ds rest digits.1 stop (omega arith) ∙ ap ok same)

skip_lem :
    (n d : ℕ) (str : List ℕ) → d < 10 → skip_spaces (spaces n ((b'0' + d) ∷ str)) ≡ (b'0' + d) ∷ str
unfolding skip_spaces
skip_lem zero d str low = let digit : (b'0' + d == b' ') ≡ false = ground arith in rw digit refl
skip_lem (suc n) d str low = skip_lem n d str low

pub atoi-value :
    (n d : ℕ) (ds rest : List ℕ)
    → IsDigits (d ∷ ds)
    → Stops rest
    → value (d ∷ ds) + 48 < 2 ^ 31
    → atoi (spaces n (characters (d ∷ ds) ++ rest)) ≡ ok (value (d ∷ ds))
unfolding atoi
atoi-value n d ds rest digits stop fits =
    let v = value (d ∷ ds) in
    rw (skip_lem n d (characters ds ++ rest) digits.0)
      (loop_lem 0 (d ∷ ds) rest digits stop (omega arith) ∙ ap ok (omega arith))

-- rand returns at most RAND_MAX, 32767, and leaves a seed of 32 bits.
pub rand-lt : (next : ℕ) → ((rand next).0 < 32768) × ((rand next).1 < 2 ^ 32)
unfolding rand
rand-lt next = (omega arith, omega arith)
