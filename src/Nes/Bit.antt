-- ===== src/Nes/Bit.antt =====
-- am-kernels/kernels/litenes/src/common.c: single bits of a variable. The functions with the suffixes
-- b, w and d, which one macro defines, differ in the width `w` of the variable, 8, 16 or 32.
use riscv32_cpu.Base.{ℕ, ◌-◌, ◌^◌, ◌%◌, bit_and, bit_or, Bool, not, ◌==◌, if◌then◌else◌}
use Prim.Native.Nat.{bit_xor}

-- A number where C wants a truth value.
abbrev pub truth : ℕ → Bool
truth n = not (n == 0)

unfoldable pub common_bit_set : ℕ → ℕ → Bool
common_bit_set value position = truth (bit_and value (2 ^ position))

-- The new value of the variable; `~` is on the 32 bits of a `long`.
unfoldable pub common_set_bit : ℕ → ℕ → ℕ → ℕ
common_set_bit w variable position = bit_or variable (2 ^ position) % 2 ^ w

unfoldable pub common_unset_bit : ℕ → ℕ → ℕ → ℕ
common_unset_bit w variable position = bit_and variable (2 ^ 32 - 1 - 2 ^ position) % 2 ^ w

unfoldable pub common_toggle_bit : ℕ → ℕ → ℕ → ℕ
common_toggle_bit w variable position = bit_xor variable (2 ^ position) % 2 ^ w

unfoldable pub common_modify_bit : ℕ → ℕ → ℕ → Bool → ℕ
unfolding common_set_bit common_unset_bit
common_modify_bit w variable position set =
    if set then common_set_bit w variable position else common_unset_bit w variable position

abbrev pub common_modify_bitb : ℕ → ℕ → Bool → ℕ
common_modify_bitb variable position set = common_modify_bit 8 variable position set
