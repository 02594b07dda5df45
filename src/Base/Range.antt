-- ===== src/Base/Range.antt =====
-- Tests of all numbers below a bound, and the equality of Booleans.
use Prim.Native.Nat.{ℕ, zero, suc, ◌<◌}
use mathlib.Core.Path.{◌≡◌, refl}
use mathlib.Core.Bool.{Bool, true, false, not, ◌&&◌}
use native.Mathlib.Omega.{arith}
use native.Mathlib.Decide.{ℕ_discrete}

unfoldable pub all_below : ℕ → (ℕ → Bool) → Bool
all_below zero f = true
all_below (suc n) f = f n && all_below n f

pub all_below-at : (n : ℕ) (f : ℕ → Bool) (i : ℕ) → all_below n f ≡ true → i < n → f i ≡ true
unfolding all_below
all_below-at zero f i h small = absurd (omega arith)
all_below-at (suc n) f i h small =
    let head : f n ≡ true = ground arith in
    let tail : all_below n f ≡ true = ground arith in
    elim (ℕ_discrete i n) [
      | yes same ↦ rw same head
      | no other ↦ all_below-at n f i tail (ground arith)
    ]

abbrev pub same_bool : Bool → Bool → Bool
same_bool true b = b
same_bool false b = not b

pub same_bool_sound : (a b : Bool) → same_bool a b ≡ true → a ≡ b
same_bool_sound true true h = refl
same_bool_sound false false h = refl
same_bool_sound true false h = ground arith
same_bool_sound false true h = ground arith
