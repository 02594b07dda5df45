-- ===== src/Nes/Cpu/Ops.antt =====
-- am-kernels/kernels/litenes/src/cpu.c: the instructions that compute on the registers.
pub mod Shifts
pub mod Moves
pub mod Extended
use Prim.Native.Nat.{bit_xor}
use riscv32_cpu.Base.{
  ℕ, ◌+◌, ◌-◌, ◌%◌, ◌^◌, bit_and, bit_or, Bool, true, false, not, ltb, leb, ◌==◌, if◌then◌else◌,
}
use riscv32_cpu.Word.{u8, u32, ◌>>>◌}
use riscv32_cpu.State.{State, pure, get, put, ◌>>=◌, ◌>>◌}
use riscv32_cpu.Nes.{CpuState, Nes, N}
use riscv32_cpu.Nes.Bit.{truth}
use riscv32_cpu.Nes.Cpu.{
  carry_bp, zero_bp, overflow_bp, negative_bp, cpu_flag_set, cpu_modify_flag, cpu_update_zn_flags,
  cpu_set_a, cpu_set_x, cpu_set_y, cpu_set_p,
}

-- `int` arithmetic in two's complement: `~x` and `x - y`.
abbrev pub int_not : ℕ → ℕ
int_not x = 2 ^ 32 - 1 - x

abbrev pub int_sub : ℕ → ℕ → ℕ
int_sub x y = u32 (x + 2 ^ 32 - y)

unfoldable pub cpu_op_adc : N (Unit {0})
cpu_op_adc = do
  s ← get
  carry ← cpu_flag_set carry_bp
  let a = s.cpu.a
  let result = u32 (a + s.op_value + (if carry then 1 else 0))
  cpu_modify_flag carry_bp (truth (bit_and result 0x100))
  cpu_modify_flag overflow_bp
      (truth (bit_and (bit_and (int_not (bit_xor a s.op_value)) (bit_xor a result)) 0x80))
  cpu_set_a (bit_and result 0xff)
  t ← get
  cpu_update_zn_flags t.cpu.a

unfoldable pub cpu_op_sbc : N (Unit {0})
cpu_op_sbc = do
  s ← get
  carry ← cpu_flag_set carry_bp
  let a = s.cpu.a
  let result = int_sub (int_sub a s.op_value) (if carry then 0 else 1)
  cpu_modify_flag carry_bp (not (truth (bit_and result 0x100)))
  cpu_modify_flag overflow_bp
      (truth (bit_and (bit_and (bit_xor a s.op_value) (bit_xor a result)) 0x80))
  cpu_set_a (bit_and result 0xff)
  t ← get
  cpu_update_zn_flags t.cpu.a

-- `cpu_update_zn_flags(r = v)`: the value of an assignment to a register is the register's.
unfoldable pub load_a : ℕ → N (Unit {0})
unfolding cpu_set_a
load_a v = do cpu_set_a v; cpu_update_zn_flags (u8 v)

unfoldable pub load_x : ℕ → N (Unit {0})
unfolding cpu_set_x
load_x v = do cpu_set_x v; cpu_update_zn_flags (u8 v)

unfoldable pub load_y : ℕ → N (Unit {0})
unfolding cpu_set_y
load_y v = do cpu_set_y v; cpu_update_zn_flags (u8 v)

unfoldable pub cpu_op_and : N (Unit {0})
unfolding load_a
cpu_op_and = do s ← get; load_a (bit_and s.cpu.a s.op_value)

unfoldable pub cpu_op_bit : N (Unit {0})
unfolding cpu_set_p
cpu_op_bit = do
  s ← get
  cpu_modify_flag zero_bp (not (truth (bit_and s.cpu.a s.op_value)))
  t ← get
  cpu_set_p (bit_or (bit_and t.cpu.p 0x3f) (bit_and 0xc0 s.op_value))

unfoldable pub cpu_op_eor : N (Unit {0})
unfolding load_a
cpu_op_eor = do s ← get; load_a (bit_xor s.cpu.a s.op_value)

unfoldable pub cpu_op_ora : N (Unit {0})
unfolding load_a
cpu_op_ora = do s ← get; load_a (bit_or s.cpu.a s.op_value)

-- cpu_compare: `result >= 0` is the sign bit of the difference.
unfoldable pub cpu_compare : ℕ → N (Unit {0})
cpu_compare reg = do
  s ← get
  let result = int_sub reg s.op_value
  cpu_modify_flag carry_bp (ltb result (2 ^ 31))
  cpu_modify_flag zero_bp (result == 0)
  cpu_modify_flag negative_bp (truth (bit_and (result >>> 7) 1))

unfoldable pub cpu_op_cmp : N (Unit {0})
unfolding cpu_compare
cpu_op_cmp = do s ← get; cpu_compare s.cpu.a

unfoldable pub cpu_op_cpx : N (Unit {0})
unfolding cpu_compare
cpu_op_cpx = do s ← get; cpu_compare s.cpu.x

unfoldable pub cpu_op_cpy : N (Unit {0})
unfolding cpu_compare
cpu_op_cpy = do s ← get; cpu_compare s.cpu.y
