-- ===== src/Nes/Cpu/Adder.antt =====
-- The addition and the subtraction of the 6502, against the arithmetic of bytes.
use Prim.Native.Nat.{bit_xor}
use riscv32_cpu.Base.{
  ℕ, ◌+◌, ◌-◌, ◌%◌, ◌^◌, ◌<◌, min, bit_and, bit_or, Bool, ◌||◌, ◌≡◌, refl, ◌∙◌, arith, ltb, leb,
  ◌==◌, if◌then◌else◌, ne→not_==,
}
use riscv32_cpu.Word.{u8, u32}
use riscv32_cpu.Word.Bits.{bit_and_mask}
use riscv32_cpu.Word.Digits.{
  digit, bit_and-pow, digit-bit_and, digit-bit_xor, differ-sum, bit_xor-lt,
}
use riscv32_cpu.Fault.{ok}
use riscv32_cpu.State.{pure, get, put, ◌>>=◌}
use riscv32_cpu.Nes.{CpuState, Nes}
use riscv32_cpu.Nes.Bit.{truth, common_bit_set, common_modify_bitb}
use riscv32_cpu.Nes.Cpu.{
  carry_bp, zero_bp, overflow_bp, negative_bp, cpu_flag_set, cpu_modify_flag, cpu_update_zn_flags,
  cpu_set_a, cpu_set_p, cpu_zn_flag_table,
}
use riscv32_cpu.Nes.Cpu.Ops.{int_not, cpu_op_adc}
use riscv32_cpu.Nes.Cpu.Flags.{flag-modify, flag-update_zn}

-- The carry of the status register as a number.
unfoldable pub carry_of : CpuState → ℕ
carry_of cpu = if common_bit_set cpu.p carry_bp then 1 else 0

unfoldable pub sum_of : Nes → ℕ
unfolding carry_of
sum_of s = s.cpu.a + s.op_value + carry_of s.cpu

-- What a byte stands for as a signed number, plus 128.
abbrev pub biased : ℕ → ℕ
biased x = (x + 128) % 256

-- Whether the sum of the signed numbers leaves the range from -128 to 127.
unfoldable pub overflows : Nes → Bool
unfolding carry_of
overflows s =
    let wide = biased s.cpu.a + biased s.op_value + carry_of s.cpu in ltb wide 128 || leb 384 wide

-- The status register after the three assignments of cpu_op_adc and cpu_op_sbc.
unfoldable pub adder_p : ℕ → Bool → Bool → ℕ → ℕ
adder_p p carry overflow value = u8 (
    bit_or
      (bit_and
        (u8 (common_modify_bitb (u8 (common_modify_bitb p carry_bp carry)) overflow_bp overflow))
        (2 ^ 32 - 1 - 0x82))
      (cpu_zn_flag_table value))

adder_p_lem :
    (p : ℕ) (carry overflow : Bool) (value j : ℕ)
    → p < 256
    → j < 8
    → common_bit_set (adder_p p carry overflow value) j ≡ (
        if j == 1
        then value == 0
        else if j == 7
        then leb 128 value
        else if j == 6
        then overflow
        else if j == 0
        then carry
        else common_bit_set p j)
unfolding adder_p
adder_p_lem p carry overflow value j hp hj = rw (
  flag-update_zn value j (u8 (common_modify_bitb (u8 (common_modify_bitb p 0 carry)) 6 overflow)) hj
      (omega arith),
  flag-modify overflow 6 j (u8 (common_modify_bitb p 0 carry)) (omega arith) hj (omega arith),
  flag-modify carry 0 j p (omega arith) hj hp,
)

adder_p_kept :
    (p : ℕ) (carry overflow : Bool) (value j : ℕ)
    → p < 256
    → 1 < j
    → j < 6
    → common_bit_set (adder_p p carry overflow value) j ≡ common_bit_set p j
adder_p_kept p carry overflow value j hp low high =
    adder_p_lem p carry overflow value j hp (omega arith)
    ∙ rw (
      ne→not_== j 1 (omega arith),
      ne→not_== j 7 (omega arith),
      ne→not_== j 6 (omega arith),
      ne→not_== j 0 (omega arith),
    )

-- The result and the flags as cpu_op_adc computes them.
abbrev pub adc_value : Nes → ℕ
adc_value s = u8 (bit_and (u32 (sum_of s)) 0xff)

abbrev pub adc_carry : Nes → Bool
adc_carry s = truth (bit_and (u32 (sum_of s)) 0x100)

abbrev pub adc_overflow : Nes → Bool
adc_overflow s = truth (
    bit_and (bit_and (int_not (bit_xor s.cpu.a s.op_value)) (bit_xor s.cpu.a (u32 (sum_of s))))
      0x80)

pub adc_run :
    (s : Nes)
    → cpu_op_adc s
      ≡ ok (
        tt,
        record s {
          cpu = record (s.cpu) {
            a = adc_value s;
            p = adder_p s.cpu.p (adc_carry s) (adc_overflow s) (adc_value s);
          };
        },
      )
unfolding cpu_op_adc adder_p sum_of carry_of cpu_flag_set cpu_modify_flag cpu_set_a cpu_set_p
    cpu_update_zn_flags ◌>>=◌ get put pure
adc_run s = refl

pub low_byte : (x : ℕ) → bit_and x 0xff ≡ x % 256
low_byte x = bit_and_mask 8 x

pub truth-sign : (x : ℕ) → truth (bit_and x 0x80) ≡ (digit 7 x == 1)
truth-sign x = let bit = bit_and-pow 7 x in ground arith

pub truth-carry : (x : ℕ) → truth (bit_and x 0x100) ≡ (digit 8 x == 1)
truth-carry x = let bit = bit_and-pow 8 x in ground arith

pub digit_at_xor : (k a b : ℕ) → digit k (bit_xor a b) ≡ (digit k a + digit k b) % 2
digit_at_xor k a b =
    digit-bit_xor k a b ∙ differ-sum (digit k a) (digit k b) (omega arith) (omega arith)

overflow_digit :
    (a v c : ℕ)
    → a < 256
    → v < 256
    → c < 2
    → (min (1 - (digit 7 a + digit 7 v) % 2) ((digit 7 a + digit 7 (a + v + c)) % 2) == 1)
      ≡ (ltb (biased a + biased v + c) 128 || leb 384 (biased a + biased v + c))
overflow_digit a v c ha hv hc = ground arith

pub not_digit : (x : ℕ) → x < 256 → digit 7 (int_not x) ≡ 1 - digit 7 x
not_digit x h = omega arith

overflow_lem :
    (a v c : ℕ)
    → a < 256
    → v < 256
    → c < 2
    → truth (bit_and (bit_and (int_not (bit_xor a v)) (bit_xor a (a + v + c))) 0x80)
      ≡ (ltb (biased a + biased v + c) 128 || leb 384 (biased a + biased v + c))
overflow_lem a v c ha hv hc =
    truth-sign _
    ∙ rw
        (
          digit-bit_and 7 (int_not (bit_xor a v)) (bit_xor a (a + v + c)),
          not_digit (bit_xor a v) (bit_xor-lt 8 a v ha hv),
          digit_at_xor 7 a v,
          digit_at_xor 7 a (a + v + c),
        )
        (overflow_digit a v c ha hv hc)

pub carry-small : (cpu : CpuState) → carry_of cpu < 2
unfolding carry_of
carry-small cpu = ground arith

pub sum-small : (s : Nes) → s.cpu.a < 256 → s.op_value < 256 → sum_of s < 512
unfolding sum_of
sum-small s ha hv = let c = carry-small s.cpu in omega arith

pub u32_sum : (s : Nes) → s.cpu.a < 256 → s.op_value < 256 → u32 (sum_of s) ≡ sum_of s
u32_sum s ha hv = let small = sum-small s ha hv in omega arith

carry_lem :
    (s : Nes)
    → s.cpu.a < 256
    → s.op_value < 256
    → truth (bit_and (u32 (sum_of s)) 0x100) ≡ leb 256 (sum_of s)
carry_lem s ha hv =
    let small = sum-small s ha hv in rw (u32_sum s ha hv) (truth-carry (sum_of s) ∙ ground arith)

overflows_lem :
    (s : Nes)
    → s.cpu.a < 256
    → s.op_value < 256
    → truth
        (bit_and (bit_and (int_not (bit_xor s.cpu.a s.op_value)) (bit_xor s.cpu.a (sum_of s))) 0x80)
      ≡ overflows s
unfolding sum_of overflows
overflows_lem s ha hv = overflow_lem s.cpu.a s.op_value (carry_of s.cpu) ha hv (carry-small s.cpu)

-- cpu_op_adc, on registers and an operand that are bytes: it returns, changes A and P alone, leaves in
-- A the low byte of the sum of A, the operand and the carry, and the flags say: carry, that the sum
-- is 256 or more; overflow, that the signed sum is out of range; zero and negative, of the result.
-- The four flags between (`j` from 2 to 5) are kept.
pub adc-adds :
    (s : Nes) (j : ℕ)
    → s.cpu.a < 2 ^ 8
    → s.op_value < 2 ^ 8
    → s.cpu.p < 2 ^ 8
    → 1 < j
    → j < 6
    → (t : Nes) × (cpu_op_adc s ≡ ok (tt, t))
      × (t ≡ record s { cpu = record (s.cpu) { a = t.cpu.a; p = t.cpu.p } })
      × (t.cpu.a ≡ sum_of s % 256)
      × (common_bit_set t.cpu.p carry_bp ≡ leb 256 (sum_of s))
      × (common_bit_set t.cpu.p overflow_bp ≡ overflows s)
      × (common_bit_set t.cpu.p zero_bp ≡ (sum_of s % 256 == 0))
      × (common_bit_set t.cpu.p negative_bp ≡ leb 128 (sum_of s % 256))
      × (common_bit_set t.cpu.p j ≡ common_bit_set s.cpu.p j)
adc-adds s j ha hv hp low high =
    let c : carry_of s.cpu < 2 = carry-small s.cpu in
    let small : u32 (sum_of s) ≡ sum_of s = u32_sum s ha hv in
    let value : adc_value s ≡ sum_of s % 256 = rw (small, low_byte (sum_of s)) (omega arith) in
    let carry : adc_carry s ≡ leb 256 (sum_of s) = carry_lem s ha hv in
    let over : adc_overflow s ≡ overflows s = rw small (overflows_lem s ha hv) in
    let flags = λ (k : ℕ) (small : k < 8).
      adder_p_lem s.cpu.p (adc_carry s) (adc_overflow s) (adc_value s) k hp small in
    (
      _,
      adc_run s,
      refl,
      value,
      flags 0 (omega arith) ∙ carry,
      flags 6 (omega arith) ∙ over,
      rw (flags 1 (omega arith), value),
      rw (flags 7 (omega arith), value),
      adder_p_kept s.cpu.p (adc_carry s) (adc_overflow s) (adc_value s) j hp low high,
    )
