-- ===== src/Nes/Valid/Cpu.antt =====
-- The registers, the flags, the stack and the addressing modes: each call returns, and keeps the
-- state well-formed.
use riscv32_cpu.Base.{ℕ, Bool, arith}
use riscv32_cpu.State.{put}
use riscv32_cpu.State.Total.{
  Total, Total-then, Total-get, Total-pure, Total-put, Total-if, total_rules,
}
use riscv32_cpu.Nes.{CpuState, Nes}
use riscv32_cpu.Nes.Cpu.{
  cpu_set_a, cpu_set_x, cpu_set_y, cpu_set_p, cpu_set_sp, cpu_set_pc, set_op_value, set_op_address,
  cpu_flag_set, cpu_modify_flag, cpu_update_zn_flags, cpu_nmi_interrupt_address, cpu_stack_pushb,
  cpu_stack_pushw, cpu_stack_popb, cpu_stack_popw,
}
use riscv32_cpu.Nes.Cpu.Address.{
  Mode, advance_pc, count_page, zero_page_value, value_at_address, cpu_address_immediate,
  cpu_address_zero_page, cpu_address_zero_page_x, cpu_address_zero_page_y, cpu_address_absolute,
  cpu_address_absolute_x, cpu_address_absolute_y, cpu_address_relative, indirect_address,
  cpu_address_indirect, cpu_address_indirect_x, cpu_address_indirect_y, cpu_address,
}
use riscv32_cpu.Nes.Valid.{IsNes, IsCpu}
use riscv32_cpu.Nes.Valid.Memory.{
  memory_readb-Total, memory_writeb-Total, memory_readw-Total, memory_writew-Total,
}

-- An assignment that leaves every register a value of its type.
put_cpu :
    (cpu : CpuState) (s : Nes)
    → IsNes s
    → (IsCpu s.cpu → IsCpu cpu)
    → Total IsNes (put (record s { cpu = cpu })) (λ a. Unit)
put_cpu cpu s w h = Total-put _ (h w.0, w.1, w.2, w.3)

pub cpu_set_a-Total : (v : ℕ) → Total IsNes (cpu_set_a v) (λ a. Unit)
unfolding cpu_set_a
cpu_set_a-Total v = Total-get _ λ s w. put_cpu _ s w (λ h. ground arith)

pub cpu_set_x-Total : (v : ℕ) → Total IsNes (cpu_set_x v) (λ a. Unit)
unfolding cpu_set_x
cpu_set_x-Total v = Total-get _ λ s w. put_cpu _ s w (λ h. ground arith)

pub cpu_set_y-Total : (v : ℕ) → Total IsNes (cpu_set_y v) (λ a. Unit)
unfolding cpu_set_y
cpu_set_y-Total v = Total-get _ λ s w. put_cpu _ s w (λ h. ground arith)

pub cpu_set_p-Total : (v : ℕ) → Total IsNes (cpu_set_p v) (λ a. Unit)
unfolding cpu_set_p
cpu_set_p-Total v = Total-get _ λ s w. put_cpu _ s w (λ h. ground arith)

pub cpu_set_sp-Total : (v : ℕ) → Total IsNes (cpu_set_sp v) (λ a. Unit)
unfolding cpu_set_sp
cpu_set_sp-Total v = Total-get _ λ s w. put_cpu _ s w (λ h. ground arith)

pub cpu_set_pc-Total : (v : ℕ) → Total IsNes (cpu_set_pc v) (λ a. Unit)
unfolding cpu_set_pc
cpu_set_pc-Total v = Total-get _ λ s w. put_cpu _ s w (λ h. ground arith)

pub set_op_value-Total : (v : ℕ) → Total IsNes (set_op_value v) (λ a. Unit)
unfolding set_op_value
set_op_value-Total v = Total-get _ λ s w. Total-put _ w

pub set_op_address-Total : (v : ℕ) → Total IsNes (set_op_address v) (λ a. Unit)
unfolding set_op_address
set_op_address-Total v = Total-get _ λ s w. Total-put _ w

pub ruleset set_rules = (
  Total-get, Total-then, Total-pure, Total-if, cpu_set_a-Total, cpu_set_x-Total, cpu_set_y-Total,
  cpu_set_p-Total, cpu_set_sp-Total, cpu_set_pc-Total, set_op_value-Total, set_op_address-Total,
  memory_readb-Total, memory_writeb-Total, memory_readw-Total, memory_writew-Total,
)

pub cpu_flag_set-Total : (flag : ℕ) → Total IsNes (cpu_flag_set flag) (λ a. Unit)
unfolding cpu_flag_set
cpu_flag_set-Total flag = search set_rules

pub cpu_modify_flag-Total :
    (flag : ℕ) (value : Bool) → Total IsNes (cpu_modify_flag flag value) (λ a. Unit)
unfolding cpu_modify_flag
cpu_modify_flag-Total flag value = Total-get _ λ s w. cpu_set_p-Total _

pub cpu_update_zn_flags-Total : (value : ℕ) → Total IsNes (cpu_update_zn_flags value) (λ a. Unit)
unfolding cpu_update_zn_flags
cpu_update_zn_flags-Total value = Total-get _ λ s w. cpu_set_p-Total _

pub cpu_nmi_interrupt_address-Total : Total IsNes cpu_nmi_interrupt_address (λ a. Unit)
unfolding cpu_nmi_interrupt_address
cpu_nmi_interrupt_address-Total = memory_readw-Total _

pub cpu_stack_pushb-Total : (v : ℕ) → Total IsNes (cpu_stack_pushb v) (λ a. Unit)
unfolding cpu_stack_pushb
cpu_stack_pushb-Total v =
    Total-get _ λ s w. Total-then _ _ (cpu_set_sp-Total _) (λ _. memory_writeb-Total _ v)

pub cpu_stack_pushw-Total : (v : ℕ) → Total IsNes (cpu_stack_pushw v) (λ a. Unit)
unfolding cpu_stack_pushw
cpu_stack_pushw-Total v =
    Total-get _
      λ s w. Total-then _ _ (memory_writew-Total _ v) (λ _. Total-get _ λ t u. cpu_set_sp-Total _)

pub cpu_stack_popb-Total : Total IsNes cpu_stack_popb (λ a. Unit)
unfolding cpu_stack_popb
cpu_stack_popb-Total =
    Total-get _
      λ s w. Total-then _ _ (cpu_set_sp-Total _) (λ _. Total-get _ λ t u. memory_readb-Total _)

pub cpu_stack_popw-Total : Total IsNes cpu_stack_popw (λ a. Unit)
unfolding cpu_stack_popw
cpu_stack_popw-Total =
    Total-get _
      λ s w. Total-then _ _ (cpu_set_sp-Total _) (λ _. Total-get _ λ t u. memory_readw-Total _)

pub advance_pc-Total : (n : ℕ) → Total IsNes (advance_pc n) (λ a. Unit)
unfolding advance_pc
advance_pc-Total n = Total-get _ λ s w. cpu_set_pc-Total _

count_page-Total : Total IsNes count_page (λ a. Unit)
unfolding count_page
count_page-Total = Total-get _ λ s w. Total-if _ _ _ (Total-pure tt) (Total-put _ w)

zero_page_value-Total : Total IsNes zero_page_value (λ a. Unit)
unfolding zero_page_value
zero_page_value-Total = Total-get _ λ s w. set_op_value-Total _

value_at_address-Total : Total IsNes value_at_address (λ a. Unit)
unfolding value_at_address
value_at_address-Total =
    Total-get _ λ s w. Total-then _ _ (memory_readb-Total _) (λ v. set_op_value-Total v)

indirect_address-Total : (arg_addr : ℕ) → Total IsNes (indirect_address arg_addr) (λ a. Unit)
unfolding indirect_address
indirect_address-Total arg_addr = search set_rules

ruleset mode_rules = (
  Total-get, Total-then, set_op_value-Total, set_op_address-Total, memory_readb-Total,
  memory_readw-Total, advance_pc-Total, count_page-Total, zero_page_value-Total,
  value_at_address-Total, indirect_address-Total,
)

immediate-Total : Total IsNes cpu_address_immediate (λ a. Unit)
unfolding cpu_address_immediate
immediate-Total = search mode_rules depth 12

zero_page-Total : Total IsNes cpu_address_zero_page (λ a. Unit)
unfolding cpu_address_zero_page
zero_page-Total = search mode_rules depth 16

zero_page_x-Total : Total IsNes cpu_address_zero_page_x (λ a. Unit)
unfolding cpu_address_zero_page_x
zero_page_x-Total = search mode_rules depth 16

zero_page_y-Total : Total IsNes cpu_address_zero_page_y (λ a. Unit)
unfolding cpu_address_zero_page_y
zero_page_y-Total = search mode_rules depth 16

absolute-Total : Total IsNes cpu_address_absolute (λ a. Unit)
unfolding cpu_address_absolute
absolute-Total = search mode_rules depth 16

absolute_x-Total : Total IsNes cpu_address_absolute_x (λ a. Unit)
unfolding cpu_address_absolute_x
absolute_x-Total = search mode_rules depth 16

absolute_y-Total : Total IsNes cpu_address_absolute_y (λ a. Unit)
unfolding cpu_address_absolute_y
absolute_y-Total = search mode_rules depth 16

relative-Total : Total IsNes cpu_address_relative (λ a. Unit)
unfolding cpu_address_relative
relative-Total = search mode_rules depth 16

indirect-Total : Total IsNes cpu_address_indirect (λ a. Unit)
unfolding cpu_address_indirect
indirect-Total = search mode_rules depth 16

indirect_x-Total : Total IsNes cpu_address_indirect_x (λ a. Unit)
unfolding cpu_address_indirect_x
indirect_x-Total = search mode_rules depth 16

indirect_y-Total : Total IsNes cpu_address_indirect_y (λ a. Unit)
unfolding cpu_address_indirect_y
indirect_y-Total = search mode_rules depth 16

pub cpu_address-Total : (m : Mode) → Total IsNes (cpu_address m) (λ a. Unit)
unfolding cpu_address
cpu_address-Total Mode.implied = Total-pure tt
cpu_address-Total Mode.immediate = immediate-Total
cpu_address-Total Mode.zero_page = zero_page-Total
cpu_address-Total Mode.zero_page_x = zero_page_x-Total
cpu_address-Total Mode.zero_page_y = zero_page_y-Total
cpu_address-Total Mode.absolute = absolute-Total
cpu_address-Total Mode.absolute_x = absolute_x-Total
cpu_address-Total Mode.absolute_y = absolute_y-Total
cpu_address-Total Mode.relative = relative-Total
cpu_address-Total Mode.indirect = indirect-Total
cpu_address-Total Mode.indirect_x = indirect_x-Total
cpu_address-Total Mode.indirect_y = indirect_y-Total
