-- ===== src/Nes/Cpu/Address.antt =====
-- am-kernels/kernels/litenes/src/cpu-addressing.c: the addressing modes of the 6502.
use riscv32_cpu.Base.{ℕ, ◌+◌, ◌-◌, ◌^◌, bit_and, bit_or, ltb, ◌==◌, if◌then◌else◌}
use riscv32_cpu.Word.{u32, ◌<<<◌, ◌>>>◌}
use riscv32_cpu.State.{pure, get, put, ◌>>=◌, ◌>>◌}
use riscv32_cpu.Nes.{N}
use riscv32_cpu.Nes.Bit.{truth}
use riscv32_cpu.Nes.Memory.{memory_readb, memory_readw}
use riscv32_cpu.Nes.Cpu.{cpu_set_pc, set_op_value, set_op_address}

pub data Mode : Type 0 where
  implied immediate zero_page zero_page_x zero_page_y absolute absolute_x absolute_y : Mode
  relative indirect indirect_x indirect_y : Mode

-- The signed shift `>> 8` of an `int`, as an `int`.
unfoldable pub page_of : ℕ → ℕ
page_of address = if ltb address (2 ^ 31) then address >>> 8 else (address >>> 8) + 2 ^ 32 - 2 ^ 24

unfoldable pub advance_pc : ℕ → N (Unit {0})
unfolding cpu_set_pc
advance_pc n = do s ← get; cpu_set_pc (s.cpu.pc + n)

-- The extra cycle where the operand is not on the page of the program counter.
unfoldable pub count_page : N (Unit {0})
unfolding page_of
count_page = do
  s ← get
  if page_of s.op_address == s.cpu.pc >>> 8
      then pure tt
      else put (record s { op_cycles = u32 (s.op_cycles + 1) })

-- `op_value = CPU_RAM[op_address]`, for an address in the zero page.
unfoldable pub zero_page_value : N (Unit {0})
unfolding set_op_value
zero_page_value = do s ← get; set_op_value (s.cpu_ram s.op_address)

unfoldable pub value_at_address : N (Unit {0})
unfolding set_op_value
value_at_address = do s ← get; v ← memory_readb s.op_address; set_op_value v

unfoldable pub cpu_address_immediate : N (Unit {0})
unfolding set_op_value advance_pc
cpu_address_immediate = do s ← get; v ← memory_readb s.cpu.pc; set_op_value v; advance_pc 1

unfoldable pub cpu_address_zero_page : N (Unit {0})
unfolding set_op_address zero_page_value advance_pc
cpu_address_zero_page = do
  s ← get
  v ← memory_readb s.cpu.pc
  set_op_address v
  zero_page_value
  advance_pc 1

unfoldable pub cpu_address_zero_page_x : N (Unit {0})
unfolding set_op_address zero_page_value advance_pc
cpu_address_zero_page_x = do
  s ← get
  v ← memory_readb s.cpu.pc
  t ← get
  set_op_address (bit_and (v + t.cpu.x) 0xff)
  zero_page_value
  advance_pc 1

unfoldable pub cpu_address_zero_page_y : N (Unit {0})
unfolding set_op_address zero_page_value advance_pc
cpu_address_zero_page_y = do
  s ← get
  v ← memory_readb s.cpu.pc
  t ← get
  set_op_address (bit_and (v + t.cpu.y) 0xff)
  zero_page_value
  advance_pc 1

unfoldable pub cpu_address_absolute : N (Unit {0})
unfolding set_op_address value_at_address advance_pc
cpu_address_absolute = do
  s ← get
  v ← memory_readw s.cpu.pc
  set_op_address v
  value_at_address
  advance_pc 2

-- The sum is not cut to 16 bits here.
unfoldable pub cpu_address_absolute_x : N (Unit {0})
unfolding set_op_address value_at_address advance_pc count_page
cpu_address_absolute_x = do
  s ← get
  v ← memory_readw s.cpu.pc
  t ← get
  set_op_address (v + t.cpu.x)
  value_at_address
  advance_pc 2
  count_page

unfoldable pub cpu_address_absolute_y : N (Unit {0})
unfolding set_op_address value_at_address advance_pc count_page
cpu_address_absolute_y = do
  s ← get
  v ← memory_readw s.cpu.pc
  t ← get
  set_op_address (bit_and (v + t.cpu.y) 0xffff)
  value_at_address
  advance_pc 2
  count_page

unfoldable pub cpu_address_relative : N (Unit {0})
unfolding set_op_address advance_pc count_page
cpu_address_relative = do
  s ← get
  v ← memory_readb s.cpu.pc
  advance_pc 1
  t ← get
  set_op_address ((if truth (bit_and v 0x80) then v + 2 ^ 32 - 0x100 else v) + t.cpu.pc)
  count_page

-- Where the pointer is the last byte of a page, its high byte comes from the start of that page.
unfoldable pub indirect_address : ℕ → N ℕ
indirect_address arg_addr =
    if bit_and arg_addr 0xff == 0xff
    then (memory_readb (bit_and arg_addr 0xff00) >>= λ high.
        memory_readb arg_addr >>= λ low. pure ((high <<< 8) + low))
    else memory_readw arg_addr

unfoldable pub cpu_address_indirect : N (Unit {0})
unfolding set_op_address advance_pc indirect_address
cpu_address_indirect = do
  s ← get
  arg_addr ← memory_readw s.cpu.pc
  v ← indirect_address arg_addr
  set_op_address v
  advance_pc 2

unfoldable pub cpu_address_indirect_x : N (Unit {0})
unfolding set_op_address value_at_address advance_pc
cpu_address_indirect_x = do
  s ← get
  arg_addr ← memory_readb s.cpu.pc
  t ← get
  high ← memory_readb (bit_and (arg_addr + t.cpu.x + 1) 0xff)
  low ← memory_readb (bit_and (arg_addr + t.cpu.x) 0xff)
  set_op_address (bit_or (high <<< 8) low)
  value_at_address
  advance_pc 1

unfoldable pub cpu_address_indirect_y : N (Unit {0})
unfolding set_op_address value_at_address advance_pc count_page
cpu_address_indirect_y = do
  s ← get
  arg_addr ← memory_readb s.cpu.pc
  high ← memory_readb (bit_and (arg_addr + 1) 0xff)
  low ← memory_readb arg_addr
  t ← get
  set_op_address (bit_and (bit_or (high <<< 8) low + t.cpu.y) 0xffff)
  value_at_address
  advance_pc 1
  count_page

unfoldable pub cpu_address : Mode → N (Unit {0})
cpu_address Mode.implied = pure tt
cpu_address Mode.immediate = cpu_address_immediate
cpu_address Mode.zero_page = cpu_address_zero_page
cpu_address Mode.zero_page_x = cpu_address_zero_page_x
cpu_address Mode.zero_page_y = cpu_address_zero_page_y
cpu_address Mode.absolute = cpu_address_absolute
cpu_address Mode.absolute_x = cpu_address_absolute_x
cpu_address Mode.absolute_y = cpu_address_absolute_y
cpu_address Mode.relative = cpu_address_relative
cpu_address Mode.indirect = cpu_address_indirect
cpu_address Mode.indirect_x = cpu_address_indirect_x
cpu_address Mode.indirect_y = cpu_address_indirect_y
