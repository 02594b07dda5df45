-- ===== src/Nes/Cpu/Ops/Shifts.antt =====
-- am-kernels/kernels/litenes/src/cpu.c: shifts and rotations, of the accumulator and of the memory,
-- and the increments and decrements.
use riscv32_cpu.Base.{◌+◌, ◌-◌, ◌^◌, bit_and, bit_or, ltb, ◌==◌, if◌then◌else◌}
use riscv32_cpu.Word.{u8, u32, ◌<<<◌, ◌>>>◌}
use riscv32_cpu.State.{get, ◌>>=◌, ◌>>◌}
use riscv32_cpu.Nes.{N}
use riscv32_cpu.Nes.Bit.{truth}
use riscv32_cpu.Nes.Memory.{memory_writeb}
use riscv32_cpu.Nes.Cpu.{
  carry_bp, zero_bp, negative_bp, cpu_flag_set, cpu_modify_flag, cpu_update_zn_flags, cpu_set_a,
  set_op_value,
}
use riscv32_cpu.Nes.Cpu.Ops.{load_a, load_x, load_y, int_sub}

unfoldable pub cpu_op_asla : N (Unit {0})
unfolding load_a
cpu_op_asla = do
  s ← get
  cpu_modify_flag carry_bp (truth (bit_and s.cpu.a 0x80))
  load_a (s.cpu.a <<< 1)

-- The operand after the instruction, as the flags and the memory take it.
unfoldable pub cpu_op_asl : N (Unit {0})
unfolding set_op_value
cpu_op_asl = do
  s ← get
  cpu_modify_flag carry_bp (truth (bit_and s.op_value 0x80))
  let value = bit_and (u32 (s.op_value <<< 1)) 0xff
  set_op_value value
  cpu_update_zn_flags value
  memory_writeb s.op_address value

unfoldable pub cpu_op_lsra : N (Unit {0})
cpu_op_lsra = do
  s ← get
  let value = s.cpu.a >>> 1
  cpu_modify_flag carry_bp (truth (bit_and s.cpu.a 1))
  cpu_set_a (bit_and value 0xff)
  cpu_update_zn_flags value

unfoldable pub cpu_op_lsr : N (Unit {0})
unfolding set_op_value
cpu_op_lsr = do
  s ← get
  cpu_modify_flag carry_bp (truth (bit_and s.op_value 1))
  let value = bit_and (s.op_value >>> 1) 0xff
  set_op_value value
  memory_writeb s.op_address value
  cpu_update_zn_flags value

unfoldable pub cpu_op_rola : N (Unit {0})
cpu_op_rola = do
  s ← get
  carry ← cpu_flag_set carry_bp
  let value = bit_or (s.cpu.a <<< 1) (if carry then 1 else 0)
  cpu_modify_flag carry_bp (ltb 0xff value)
  cpu_set_a (bit_and value 0xff)
  t ← get
  cpu_update_zn_flags t.cpu.a

unfoldable pub cpu_op_rol : N (Unit {0})
unfolding set_op_value
cpu_op_rol = do
  s ← get
  carry ← cpu_flag_set carry_bp
  let value = bit_or (u32 (s.op_value <<< 1)) (if carry then 1 else 0)
  cpu_modify_flag carry_bp (ltb 0xff value)
  set_op_value (bit_and value 0xff)
  memory_writeb s.op_address (bit_and value 0xff)
  cpu_update_zn_flags (bit_and value 0xff)

unfoldable pub cpu_op_rora : N (Unit {0})
cpu_op_rora = do
  s ← get
  carry ← cpu_flag_set carry_bp
  cpu_modify_flag carry_bp (truth (bit_and s.cpu.a 1))
  cpu_set_a (bit_or (s.cpu.a >>> 1) (if carry then 0x80 else 0))
  t ← get
  cpu_modify_flag zero_bp (t.cpu.a == 0)
  cpu_modify_flag negative_bp carry

unfoldable pub cpu_op_ror : N (Unit {0})
unfolding set_op_value
cpu_op_ror = do
  s ← get
  carry ← cpu_flag_set carry_bp
  cpu_modify_flag carry_bp (truth (bit_and s.op_value 1))
  let value = bit_and (bit_or (s.op_value >>> 1) (if carry then 0x80 else 0)) 0xff
  set_op_value value
  cpu_modify_flag zero_bp (value == 0)
  cpu_modify_flag negative_bp carry
  memory_writeb s.op_address value

unfoldable pub cpu_op_inc : N (Unit {0})
cpu_op_inc = do
  s ← get
  let result = u8 (s.op_value + 1)
  memory_writeb s.op_address result
  cpu_update_zn_flags result

unfoldable pub cpu_op_inx : N (Unit {0})
unfolding load_x
cpu_op_inx = do s ← get; load_x (s.cpu.x + 1)

unfoldable pub cpu_op_iny : N (Unit {0})
unfolding load_y
cpu_op_iny = do s ← get; load_y (s.cpu.y + 1)

unfoldable pub cpu_op_dec : N (Unit {0})
cpu_op_dec = do
  s ← get
  let result = u8 (int_sub s.op_value 1)
  memory_writeb s.op_address result
  cpu_update_zn_flags result

unfoldable pub cpu_op_dex : N (Unit {0})
unfolding load_x
cpu_op_dex = do s ← get; load_x (s.cpu.x + 2 ^ 8 - 1)

unfoldable pub cpu_op_dey : N (Unit {0})
unfolding load_y
cpu_op_dey = do s ← get; load_y (s.cpu.y + 2 ^ 8 - 1)
