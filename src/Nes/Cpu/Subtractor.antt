-- ===== src/Nes/Cpu/Subtractor.antt =====
-- The subtraction of the 6502 is the addition of the complement.
use Prim.Native.Nat.{bit_xor}
use riscv32_cpu.Base.{
  ℕ, ◌+◌, ◌-◌, ◌%◌, ◌^◌, ◌<◌, min, bit_and, Bool, true, false, not, ◌≡◌, refl, sym, ◌∙◌, arith,
  ◌==◌, if◌then◌else◌,
}
use riscv32_cpu.Word.{u8, u32}
use riscv32_cpu.Word.Digits.{digit, digit-bit_and, bit_xor-lt}
use riscv32_cpu.Fault.{ok}
use riscv32_cpu.State.{pure, get, put, bind_result, ◌>>=◌}
use riscv32_cpu.Nes.{Nes}
use riscv32_cpu.Nes.Bit.{truth, common_bit_set}
use riscv32_cpu.Nes.Cpu.{
  carry_bp, cpu_flag_set, cpu_modify_flag, cpu_update_zn_flags, cpu_set_a, cpu_set_p,
}
use riscv32_cpu.Nes.Cpu.Ops.{int_not, int_sub, cpu_op_adc, cpu_op_sbc}
use riscv32_cpu.Nes.Cpu.Adder.{
  carry_of, sum_of, adder_p, adc_value, adc_carry, adc_overflow, adc_run, low_byte, truth-sign,
  truth-carry, digit_at_xor, not_digit, sum-small,
}

-- The difference as cpu_op_sbc computes it, by the carry, and the sum with the complement.
unfoldable sbc_result : ℕ → ℕ → Bool → ℕ
sbc_result a v carry = int_sub (int_sub a v) (if carry then 0 else 1)

sbc_result_lem :
    (a v : ℕ) (carry : Bool)
    → a < 256
    → v < 256
    → sbc_result a v carry ≡ u32 (a + (255 - v) + (if carry then 1 else 0) + 2 ^ 32 - 256)
unfolding sbc_result
sbc_result_lem a v true ha hv = omega arith
sbc_result_lem a v false ha hv = omega arith

-- The state with the complement of the operand.
abbrev complemented : Nes → Nes
complemented s = record s { op_value = 255 - s.op_value }

abbrev difference : Nes → ℕ
difference s = sbc_result s.cpu.a s.op_value (common_bit_set s.cpu.p carry_bp)

sbc_run :
    (s : Nes)
    → cpu_op_sbc s
      ≡ ok (
        tt,
        record s {
          cpu = record (s.cpu) {
            a = u8 (bit_and (difference s) 0xff);
            p =
                adder_p s.cpu.p
                  (not (truth (bit_and (difference s) 0x100)))
                  (truth (
                    bit_and
                      (bit_and (bit_xor s.cpu.a s.op_value) (bit_xor s.cpu.a (difference s)))
                      0x80))
                  (u8 (bit_and (difference s) 0xff));
          };
        },
      )
unfolding cpu_op_sbc adder_p sbc_result cpu_flag_set cpu_modify_flag cpu_set_a cpu_set_p
    cpu_update_zn_flags ◌>>=◌ get put pure
sbc_run s = refl

-- The digits of the difference are those of the sum, but for the borrow.
difference_lem :
    (s : Nes)
    → s.cpu.a < 256
    → s.op_value < 256
    → difference s ≡ u32 (sum_of (complemented s) + 2 ^ 32 - 256)
unfolding sum_of carry_of
difference_lem s ha hv = sbc_result_lem s.cpu.a s.op_value (common_bit_set s.cpu.p carry_bp) ha hv

module _ (s : Nes) (ha : s.cpu.a < 256) (hv : s.op_value < 256) where
  small : sum_of (complemented s) < 512
  small = sum-small (complemented s) ha (omega arith)

  value_lem : u8 (bit_and (difference s) 0xff) ≡ adc_value (complemented s)
  value_lem =
      rw (low_byte (difference s), low_byte (u32 (sum_of (complemented s))), difference_lem s ha hv)
        (let h = small in omega arith)

  borrow_lem : not (truth (bit_and (difference s) 0x100)) ≡ adc_carry (complemented s)
  borrow_lem =
      rw
        (
          truth-carry (difference s),
          truth-carry (u32 (sum_of (complemented s))),
          difference_lem s ha hv,
        )
        (let h = small in ground arith)

  complement_digit : digit 7 (255 - s.op_value) ≡ 1 - digit 7 s.op_value
  complement_digit = omega arith

  sign_lem : digit 7 (difference s) ≡ digit 7 (u32 (sum_of (complemented s)))
  sign_lem = rw (difference_lem s ha hv) (let h = small in omega arith)

  sum_sign : adc_overflow (complemented s) ≡ (
      min
        (1 - (digit 7 s.cpu.a + (1 - digit 7 s.op_value)) % 2)
        ((digit 7 s.cpu.a + digit 7 (u32 (sum_of (complemented s)))) % 2)
      == 1)
  sum_sign =
      truth-sign _
      ∙ rw (
        digit-bit_and 7 (int_not (bit_xor s.cpu.a (255 - s.op_value)))
            (bit_xor s.cpu.a (u32 (sum_of (complemented s)))),
        not_digit (bit_xor s.cpu.a (255 - s.op_value))
            (bit_xor-lt 8 s.cpu.a (255 - s.op_value) ha (omega arith)),
        digit_at_xor 7 s.cpu.a (255 - s.op_value),
        digit_at_xor 7 s.cpu.a (u32 (sum_of (complemented s))),
        complement_digit,
      )

  bits_lem :
      (min
          ((digit 7 s.cpu.a + digit 7 s.op_value) % 2)
          ((digit 7 s.cpu.a + digit 7 (u32 (sum_of (complemented s)))) % 2)
        == 1)
      ≡ (min
            (1 - (digit 7 s.cpu.a + (1 - digit 7 s.op_value)) % 2)
            ((digit 7 s.cpu.a + digit 7 (u32 (sum_of (complemented s)))) % 2)
          == 1)
  bits_lem = ground arith

  over_lem :
      truth (bit_and (bit_and (bit_xor s.cpu.a s.op_value) (bit_xor s.cpu.a (difference s))) 0x80)
      ≡ adc_overflow (complemented s)
  over_lem =
      truth-sign _
      ∙ rw
          (
            digit-bit_and 7 (bit_xor s.cpu.a s.op_value) (bit_xor s.cpu.a (difference s)),
            digit_at_xor 7 s.cpu.a s.op_value,
            digit_at_xor 7 s.cpu.a (difference s),
            sign_lem,
          )
          (bits_lem ∙ sym sum_sign)

-- cpu_op_sbc, on an accumulator and an operand that are bytes, returns what cpu_op_adc does on the
-- complement 255 - v of the operand v: the same accumulator, the same flags and the same state, with
-- the operand as it was.
pub sbc-complements :
    (s : Nes)
    → s.cpu.a < 2 ^ 8
    → s.op_value < 2 ^ 8
    → cpu_op_sbc s
      ≡ bind_result
          (cpu_op_adc (record s { op_value = 255 - s.op_value }))
          (λ u t. ok (u, record t { op_value = s.op_value }))
sbc-complements s ha hv =
    sbc_run s
    ∙ rw (adc_run (complemented s), value_lem s ha hv, borrow_lem s ha hv, over_lem s ha hv)
