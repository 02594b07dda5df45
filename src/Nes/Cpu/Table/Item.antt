-- ===== src/Nes/Cpu/Table/Item.antt =====
-- am-kernels/kernels/litenes/src/cpu.c: an element of the instruction tables. The names of the
-- instructions, which nothing reads, are left out.
use riscv32_cpu.Base.{ℕ, Bool, true, false}
use riscv32_cpu.Nes.Cpu.Address.{Mode}

-- A pointer to the function `cpu_op_…` of that name, or to ____FE____.
pub data Handler : Type 0 where
  adc and asl asla aso axa axs bcc bcs beq bit bmi bne bpl brk bvc bvs clc cld cli : Handler
  clv cmp cpx cpy dcm dec dex dey eor inc ins inx iny jmp jsr lax lda ldx ldy lse : Handler
  lsr lsra nop ora pha php pla plp rla rol rola ror rora rra rti rts sbc sec sed : Handler
  sei sta stx sty tax tay tsx txa txs tya fe : Handler

-- The elements of cpu_op_cycles, cpu_op_handler, cpu_op_address_mode and
-- cpu_op_in_base_instruction_set at one opcode.
pub record Entry : Type 0 where
  pub opcode : ℕ
  pub cycles : ℕ
  pub handler : Handler
  pub mode : Mode
  pub in_base_set : Bool

-- CPU_OP_BIS, CPU_OP_EIS and CPU_OP_NII
abbrev pub bis : ℕ → ℕ → Handler → Mode → Entry
bis o c f a = record { opcode = o; cycles = c; handler = f; mode = a; in_base_set = true }

abbrev pub eis : ℕ → ℕ → Handler → Mode → Entry
eis o c f a = record { opcode = o; cycles = c; handler = f; mode = a; in_base_set = false }

abbrev pub nii : ℕ → Mode → Entry
nii o a = record { opcode = o; cycles = 1; handler = Handler.fe; mode = a; in_base_set = false }
