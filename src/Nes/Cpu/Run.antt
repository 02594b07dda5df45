-- ===== src/Nes/Cpu/Run.antt =====
-- am-kernels/kernels/litenes/src/cpu.c: cpu_init without the tables, cpu_reset, cpu_interrupt,
-- cpu_clock and cpu_run.
use riscv32_cpu.Base.{
  ℕ, zero, suc, ◌+◌, ◌-◌, ◌/◌, ◌^◌, bit_or, Bool, true, false, Option, none, some, ◌==◌,
  if◌then◌else◌,
}
use riscv32_cpu.Word.{u64}
use riscv32_cpu.State.{pure, get, put, ◌>>=◌, ◌>>◌}
use riscv32_cpu.Nes.{N}
use riscv32_cpu.Nes.Memory.{memory_readb}
use riscv32_cpu.Nes.Ppu.{ppu_generates_nmi}
use riscv32_cpu.Nes.Cpu.{
  unused_bp, cpu_modify_flag, cpu_set_p, cpu_set_sp, cpu_set_pc, cpu_nmi_interrupt_address,
  cpu_reset_interrupt_address, cpu_stack_pushb, cpu_stack_pushw,
}
use riscv32_cpu.Nes.Cpu.Address.{cpu_address, advance_pc}
use riscv32_cpu.Nes.Cpu.Table.{cpu_op_table, find_op}
use riscv32_cpu.Nes.Cpu.Table.Item.{Entry}
use riscv32_cpu.Nes.Cpu.Ops.Extended.{cpu_op_handler}

unfoldable pub cpu_init : N (Unit {0})
cpu_init = do
  s ← get
  put (record s { cpu = record { pc = s.cpu.pc; sp = 0; a = 0; x = 0; y = 0; p = 0x24 } })

unfoldable pub cpu_reset : N (Unit {0})
unfolding cpu_set_p cpu_set_sp cpu_set_pc
cpu_reset = do
  address ← cpu_reset_interrupt_address
  cpu_set_pc address
  s ← get
  cpu_set_sp (s.cpu.sp + 2 ^ 8 - 3)
  t ← get
  cpu_set_p (bit_or t.cpu.p 0x04)

-- The sequence of an interrupt that the picture unit asks for.
unfoldable pub take_nmi : N (Unit {0})
unfolding cpu_set_p cpu_set_pc
take_nmi = do
  s ← get
  cpu_set_p (bit_or s.cpu.p 0x04)
  cpu_modify_flag unused_bp false
  t ← get
  cpu_stack_pushw t.cpu.pc
  r ← get
  cpu_stack_pushb r.cpu.p
  address ← cpu_nmi_interrupt_address
  cpu_set_pc address

unfoldable pub cpu_interrupt : N (Unit {0})
unfolding take_nmi
cpu_interrupt = do s ← get; if ppu_generates_nmi s.ppu then take_nmi else pure tt

unfoldable pub cpu_clock : N ℕ
cpu_clock = do s ← get; pure s.cpu_cycles

-- The instruction of an element of the tables, and its cycles.
unfoldable pub cpu_op : Option Entry → N ℕ
cpu_op none = pure 0
cpu_op (some e) = do cpu_address e.mode; cpu_op_handler e.handler; pure e.cycles

-- What the cycles of an instruction do to the counters: cpu_cycles goes down.
unfoldable pub spend : ℕ → N ℕ
spend cycles = do
  s ← get
  let spent = cycles + s.op_cycles
  put (record s { op_cycles = 0; cpu_cycles = u64 (s.cpu_cycles + 2 ^ 64 - spent) })
  pure spent

-- `op_code = memory_readb(cpu.PC++)`
unfoldable pub fetch : N ℕ
unfolding advance_pc
fetch = do s ← get; advance_pc 1; memory_readb s.cpu.pc

-- One round of the loop: the cycles that it takes.
unfoldable pub cpu_step : N ℕ
unfolding cpu_op spend fetch
cpu_step = do op_code ← fetch; cycles ← cpu_op (find_op cpu_op_table op_code); spend cycles

-- The loop, with fuel for its rounds: whether it has ended. `cycles > 0` fails at every number that
-- the subtraction on ℕ cuts to 0.
unfoldable pub cpu_loop : ℕ → ℕ → N Bool
unfolding cpu_step
cpu_loop zero cycles = pure (cycles == 0)
cpu_loop (suc fuel) cycles =
    if cycles == 0 then pure true else do spent ← cpu_step; cpu_loop fuel (cycles - spent)

unfoldable pub cpu_run : ℕ → ℕ → N Bool
unfolding cpu_loop
cpu_run fuel cycles = cpu_loop fuel (cycles / 3)
