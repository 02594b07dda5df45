-- ===== src/Nes/Cpu/Table.antt =====
-- am-kernels/kernels/litenes/src/cpu.c: the instruction tables as cpu_init fills them.
pub mod Item
pub mod Base6502
pub mod Extended
use riscv32_cpu.Base.{ℕ, Option, none, some, List, [], ◌∷◌, ◌++◌, ◌==◌, if◌then◌else◌}
use riscv32_cpu.Nes.Cpu.Table.Item.{Entry}
use riscv32_cpu.Nes.Cpu.Table.Base6502.{base_instructions}
use riscv32_cpu.Nes.Cpu.Table.Extended.{extended_instructions, unimplemented_instructions}

abbrev pub cpu_op_table : List Entry
cpu_op_table = base_instructions ++ (extended_instructions ++ unimplemented_instructions)

-- The element at an opcode is the one assigned last; `none` is an opcode with no assignment, whose
-- pointers are NULL and whose cycles are 0.
unfoldable pub find_op : List Entry → ℕ → Option Entry
find_op [] op_code = none
find_op (e ∷ later) op_code = elim (find_op later op_code) [
  | some found ↦ some found
  | none ↦ if e.opcode == op_code then some e else none
]
