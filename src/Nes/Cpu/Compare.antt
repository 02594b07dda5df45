-- ===== src/Nes/Cpu/Compare.antt =====
-- The comparisons of the 6502, against the order of bytes.
use riscv32_cpu.Base.{
  ℕ, ◌+◌, ◌-◌, ◌%◌, ◌^◌, ◌<◌, bit_and, Bool, ◌≡◌, refl, ◌∙◌, arith, ltb, leb, ◌==◌, ne→not_==,
  if◌then◌else◌,
}
use riscv32_cpu.Word.{u8, ◌>>>◌}
use riscv32_cpu.Word.Bits.{bit_and_mask}
use riscv32_cpu.Fault.{ok}
use riscv32_cpu.State.{pure, get, put, ◌>>=◌}
use riscv32_cpu.Nes.{Nes}
use riscv32_cpu.Nes.Bit.{truth, common_bit_set, common_modify_bitb}
use riscv32_cpu.Nes.Cpu.{carry_bp, zero_bp, negative_bp, cpu_modify_flag, cpu_set_p}
use riscv32_cpu.Nes.Cpu.Ops.{int_sub, cpu_compare}
use riscv32_cpu.Nes.Cpu.Flags.{flag-modify}

-- The status register after the three assignments of cpu_compare.
unfoldable compare_p : ℕ → Bool → Bool → Bool → ℕ
compare_p p carry zero negative = u8 (
    common_modify_bitb (u8 (common_modify_bitb (u8 (common_modify_bitb p 0 carry)) 1 zero)) 7
      negative)

compare_p_lem :
    (p : ℕ) (carry zero negative : Bool) (j : ℕ)
    → p < 256
    → j < 8
    → common_bit_set (compare_p p carry zero negative) j ≡ (
        if j == 7
        then negative
        else if j == 1
        then zero
        else if j == 0
        then carry
        else common_bit_set p j)
unfolding compare_p
compare_p_lem p carry zero negative j hp hj = rw (
  flag-modify negative 7 j (u8 (common_modify_bitb (u8 (common_modify_bitb p 0 carry)) 1 zero))
      (omega arith) hj (omega arith),
  flag-modify zero 1 j (u8 (common_modify_bitb p 0 carry)) (omega arith) hj (omega arith),
  flag-modify carry 0 j p (omega arith) hj hp,
)

compare_p_kept :
    (p : ℕ) (carry zero negative : Bool) (j : ℕ)
    → p < 256
    → 1 < j
    → j < 7
    → common_bit_set (compare_p p carry zero negative) j ≡ common_bit_set p j
compare_p_kept p carry zero negative j hp low high =
    compare_p_lem p carry zero negative j hp (omega arith)
    ∙ rw (ne→not_== j 7 (omega arith), ne→not_== j 1 (omega arith), ne→not_== j 0 (omega arith))

sign_lem :
    (reg v : ℕ)
    → reg < 256
    → v < 256
    → truth (bit_and (int_sub reg v >>> 7) 1) ≡ leb 128 ((reg + 256 - v) % 256)
sign_lem reg v hr hv = rw (bit_and_mask 1 (int_sub reg v >>> 7)) (ground arith)

-- cpu_compare, for a register and an operand that are bytes: it returns, changes P alone, and the
-- flags say: carry, that the register is not less than the operand; zero, that they are equal;
-- negative, that the difference modulo 256 is 128 or more. Each other flag `j` is kept.
pub compare-orders :
    (reg j : ℕ) (s : Nes)
    → reg < 2 ^ 8
    → s.op_value < 2 ^ 8
    → s.cpu.p < 2 ^ 8
    → 1 < j
    → j < 7
    → (t : Nes) × (cpu_compare reg s ≡ ok (tt, t))
      × (t ≡ record s { cpu = record (s.cpu) { p = t.cpu.p } })
      × (common_bit_set t.cpu.p carry_bp ≡ leb s.op_value reg)
      × (common_bit_set t.cpu.p zero_bp ≡ (reg == s.op_value))
      × (common_bit_set t.cpu.p negative_bp ≡ leb 128 ((reg + 256 - s.op_value) % 256))
      × (common_bit_set t.cpu.p j ≡ common_bit_set s.cpu.p j)
unfolding cpu_compare cpu_modify_flag cpu_set_p ◌>>=◌ get put pure compare_p
compare-orders reg j s hr hv hp low high =
    let result = int_sub reg s.op_value in
    let carry : ltb result (2 ^ 31) ≡ leb s.op_value reg = ground arith in
    let zero : (result == 0) ≡ (reg == s.op_value) = ground arith in
    let flags = λ (k : ℕ) (small : k < 8).
      compare_p_lem s.cpu.p (ltb result (2 ^ 31)) (result == 0) (truth (bit_and (result >>> 7) 1)) k
        hp small in
    (
      _,
      refl,
      refl,
      flags 0 (omega arith) ∙ carry,
      flags 1 (omega arith) ∙ zero,
      flags 7 (omega arith) ∙ sign_lem reg s.op_value hr hv,
      compare_p_kept s.cpu.p (ltb result (2 ^ 31)) (result == 0) (truth (bit_and (result >>> 7) 1))
          j hp low high,
    )
