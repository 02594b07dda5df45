-- ===== src/Nes/Cpu.antt =====
-- am-kernels/kernels/litenes/src/cpu.c: the registers, the flags and the stack of the 6502.
pub mod Address
pub mod Ops
pub mod Table
pub mod Run
pub mod Flags
pub mod Adder
pub mod Compare
pub mod Subtractor
pub mod Stack
pub mod Decode
pub mod Cycles
use Prim.Native.Nat.{bit_xor}
use riscv32_cpu.Base.{ℕ, ◌+◌, ◌-◌, ◌%◌, ◌^◌, bit_and, bit_or, Bool, ltb, ◌==◌, if◌then◌else◌}
use riscv32_cpu.Word.{u8, u16, u32}
use riscv32_cpu.State.{State, pure, get, put, ◌>>=◌, ◌>>◌}
use riscv32_cpu.Nes.{CpuState, Nes, N}
use riscv32_cpu.Nes.Bit.{common_bit_set, common_modify_bitb}
use riscv32_cpu.Nes.Memory.{memory_readb, memory_writeb, memory_readw, memory_writew}

-- cpu-internal.h: the positions of the flags.
abbrev pub carry_bp : ℕ
carry_bp = 0

abbrev pub zero_bp : ℕ
zero_bp = 1

abbrev pub interrupt_bp : ℕ
interrupt_bp = 2

abbrev pub decimal_bp : ℕ
decimal_bp = 3

abbrev pub unused_bp : ℕ
unused_bp = 5

abbrev pub overflow_bp : ℕ
overflow_bp = 6

abbrev pub negative_bp : ℕ
negative_bp = 7

-- Assignments to the registers, each cut to the register's type, and to the operand, an `int`.
unfoldable pub cpu_set_a : ℕ → N (Unit {0})
cpu_set_a v = do s ← get; put (record s { cpu = record (s.cpu) { a = u8 v } })

unfoldable pub cpu_set_x : ℕ → N (Unit {0})
cpu_set_x v = do s ← get; put (record s { cpu = record (s.cpu) { x = u8 v } })

unfoldable pub cpu_set_y : ℕ → N (Unit {0})
cpu_set_y v = do s ← get; put (record s { cpu = record (s.cpu) { y = u8 v } })

unfoldable pub cpu_set_p : ℕ → N (Unit {0})
cpu_set_p v = do s ← get; put (record s { cpu = record (s.cpu) { p = u8 v } })

unfoldable pub cpu_set_sp : ℕ → N (Unit {0})
cpu_set_sp v = do s ← get; put (record s { cpu = record (s.cpu) { sp = u8 v } })

unfoldable pub cpu_set_pc : ℕ → N (Unit {0})
cpu_set_pc v = do s ← get; put (record s { cpu = record (s.cpu) { pc = u16 v } })

unfoldable pub set_op_value : ℕ → N (Unit {0})
set_op_value v = do s ← get; put (record s { op_value = u32 v })

unfoldable pub set_op_address : ℕ → N (Unit {0})
set_op_address v = do s ← get; put (record s { op_address = u32 v })

-- The table has 256 elements: zero_flag, 127 times 0, and 128 times negative_flag. The values that
-- index it are bytes.
unfoldable pub cpu_zn_flag_table : ℕ → ℕ
cpu_zn_flag_table v = if v == 0 then 0x02 else if ltb v 0x80 then 0 else 0x80

unfoldable pub cpu_flag_set : ℕ → N Bool
cpu_flag_set flag = do s ← get; pure (common_bit_set s.cpu.p flag)

unfoldable pub cpu_modify_flag : ℕ → Bool → N (Unit {0})
unfolding cpu_set_p
cpu_modify_flag flag value = do s ← get; cpu_set_p (common_modify_bitb s.cpu.p flag value)

-- `~(zero_flag | negative_flag)` as an `int`.
unfoldable pub cpu_update_zn_flags : ℕ → N (Unit {0})
unfolding cpu_set_p cpu_zn_flag_table
cpu_update_zn_flags value = do
  s ← get
  cpu_set_p (bit_or (bit_and s.cpu.p (2 ^ 32 - 1 - 0x82)) (cpu_zn_flag_table value))

unfoldable pub cpu_nmi_interrupt_address : N ℕ
cpu_nmi_interrupt_address = memory_readw 0xfffa

unfoldable pub cpu_reset_interrupt_address : N ℕ
cpu_reset_interrupt_address = memory_readw 0xfffc

unfoldable pub cpu_irq_interrupt_address : N ℕ
cpu_irq_interrupt_address = memory_readw 0xfffe

-- The stack pointer is changed before the access in cpu_stack_pushb, and after it in
-- cpu_stack_pushw.
unfoldable pub cpu_stack_pushb : ℕ → N (Unit {0})
unfolding cpu_set_sp
cpu_stack_pushb v = do
  s ← get
  cpu_set_sp (s.cpu.sp + 2 ^ 8 - 1)
  memory_writeb (0x100 + s.cpu.sp) v

unfoldable pub cpu_stack_pushw : ℕ → N (Unit {0})
unfolding cpu_set_sp
cpu_stack_pushw v = do
  s ← get
  memory_writew (0xff + s.cpu.sp) v
  t ← get
  cpu_set_sp (t.cpu.sp + 2 ^ 8 - 2)

unfoldable pub cpu_stack_popb : N ℕ
unfolding cpu_set_sp
cpu_stack_popb = do s ← get; cpu_set_sp (s.cpu.sp + 1); t ← get; memory_readb (0x100 + t.cpu.sp)

unfoldable pub cpu_stack_popw : N ℕ
unfolding cpu_set_sp
cpu_stack_popw = do s ← get; cpu_set_sp (s.cpu.sp + 2); t ← get; memory_readw (0xff + t.cpu.sp)
