-- ===== src/Word/Step.antt =====
-- One equation for the lowest binary digit of `&`, `|` and `^`. The native operations are defined by
-- a recursion on digits with fuel; here the fuel is dropped.
use Prim.Native.Nat.{
  digits, bitwise, bit_and-bitwise, bit_or-bitwise, bit_xor, bit_xor-bitwise, differ,
}
use riscv32_cpu.Base.{
  ℕ, zero, suc, ◌+◌, ◌*◌, ◌/◌, ◌%◌, ◌≤◌, min, max, bit_and, bit_or, ◌≡◌, refl, ap, arith,
}

module _ (rest : ℕ → ℕ) (op : ℕ → ℕ → ℕ) where
  -- Once the fuel covers the first number, more of it changes nothing.
  more_fuel : (n m a b : ℕ) → a ≤ n → n ≤ m → digits rest op m a b ≡ digits rest op n a b
  more_fuel zero zero zero b covers grows = refl
  more_fuel zero (suc m) zero b covers grows = refl
  more_fuel (suc n) (suc m) zero b covers grows = refl
  more_fuel (suc n) zero a b covers grows = absurd (omega arith)
  more_fuel zero m (suc a) b covers grows = absurd (omega arith)
  more_fuel (suc n) (suc m) (suc a) b covers grows =
      ap (λ high. high * 2 + op (suc a % 2) (b % 2))
        (more_fuel n m (suc a / 2) (b / 2) (omega arith) (omega arith))

  bitwise_step :
      (a b : ℕ)
      → bitwise rest op (suc a) b ≡ bitwise rest op (suc a / 2) (b / 2) * 2 + op (suc a % 2) (b % 2)
  bitwise_step a b =
      ap (λ high. high * 2 + op (suc a % 2) (b % 2))
        (more_fuel (suc a / 2) a (suc a / 2) (b / 2) (omega arith) (omega arith))

pub bit_and_digit : (a b : ℕ) → bit_and a b ≡ bit_and (a / 2) (b / 2) * 2 + min (a % 2) (b % 2)
bit_and_digit zero b = simp bit_and-bitwise (omega arith)
bit_and_digit (suc a) b = simp bit_and-bitwise (bitwise_step (λ other. 0) min a b)

pub bit_or_digit : (a b : ℕ) → bit_or a b ≡ bit_or (a / 2) (b / 2) * 2 + max (a % 2) (b % 2)
bit_or_digit zero b = simp bit_or-bitwise (omega arith)
bit_or_digit (suc a) b = simp bit_or-bitwise (bitwise_step (λ other. other) max a b)

pub bit_xor_digit : (a b : ℕ) → bit_xor a b ≡ bit_xor (a / 2) (b / 2) * 2 + differ (a % 2) (b % 2)
bit_xor_digit zero b = simp bit_xor-bitwise (omega arith)
bit_xor_digit (suc a) b = simp bit_xor-bitwise (bitwise_step (λ other. other) differ a b)
