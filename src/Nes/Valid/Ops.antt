-- ===== src/Nes/Valid/Ops.antt =====
-- The instructions of the 6502: each returns, and keeps the state well-formed.
use riscv32_cpu.Base.{ℕ, Bool}
use riscv32_cpu.State.Total.{Total, Total-get, Total-then, Total-pure, Total-if}
use riscv32_cpu.Nes.Cpu.Ops.{
  cpu_op_adc, cpu_op_sbc, load_a, load_x, load_y, cpu_op_and, cpu_op_bit, cpu_op_eor, cpu_op_ora,
  cpu_compare, cpu_op_cmp, cpu_op_cpx, cpu_op_cpy,
}
use riscv32_cpu.Nes.Cpu.Ops.Shifts.{
  cpu_op_asla, cpu_op_asl, cpu_op_lsra, cpu_op_lsr, cpu_op_rola, cpu_op_rol, cpu_op_rora,
  cpu_op_ror, cpu_op_inc, cpu_op_inx, cpu_op_iny, cpu_op_dec, cpu_op_dex, cpu_op_dey,
}
use riscv32_cpu.Nes.Cpu.Ops.Moves.{
  cpu_op_lda, cpu_op_ldx, cpu_op_ldy, cpu_op_sta, cpu_op_stx, cpu_op_sty, cpu_op_tax, cpu_op_txa,
  cpu_op_tay, cpu_op_tya, cpu_op_tsx, cpu_op_txs, cpu_op_jmp, cpu_op_jsr, cpu_op_rts, cpu_op_brk,
  cpu_op_rti, cpu_op_php, cpu_op_pha, cpu_op_pla, cpu_op_plp, cpu_branch, cpu_assign_flag,
}
use riscv32_cpu.Nes.Valid.{IsNes}
use riscv32_cpu.Nes.Valid.Cpu.{
  cpu_set_a-Total, cpu_set_x-Total, cpu_set_y-Total, cpu_set_p-Total, cpu_set_sp-Total,
  cpu_set_pc-Total, set_op_value-Total, cpu_flag_set-Total, cpu_modify_flag-Total,
  cpu_update_zn_flags-Total, cpu_nmi_interrupt_address-Total, cpu_stack_pushb-Total,
  cpu_stack_pushw-Total, cpu_stack_popb-Total, cpu_stack_popw-Total,
}
use riscv32_cpu.Nes.Valid.Memory.{memory_writeb-Total}

ruleset part_rules = (
  Total-get, Total-then, Total-pure, Total-if, memory_writeb-Total, cpu_set_a-Total,
  cpu_set_x-Total, cpu_set_y-Total, cpu_set_p-Total, cpu_set_sp-Total, cpu_set_pc-Total,
  set_op_value-Total, cpu_flag_set-Total, cpu_modify_flag-Total, cpu_update_zn_flags-Total,
  cpu_nmi_interrupt_address-Total, cpu_stack_pushb-Total, cpu_stack_pushw-Total,
  cpu_stack_popb-Total, cpu_stack_popw-Total,
)

pub load_a-Total : (v : ℕ) → Total IsNes (load_a v) (λ a. Unit)
unfolding load_a
load_a-Total v = search part_rules depth 20

pub load_x-Total : (v : ℕ) → Total IsNes (load_x v) (λ a. Unit)
unfolding load_x
load_x-Total v = search part_rules depth 20

pub load_y-Total : (v : ℕ) → Total IsNes (load_y v) (λ a. Unit)
unfolding load_y
load_y-Total v = search part_rules depth 20

pub cpu_compare-Total : (v : ℕ) → Total IsNes (cpu_compare v) (λ a. Unit)
unfolding cpu_compare
cpu_compare-Total v = search part_rules depth 20

ruleset op_rules = (part_rules, load_a-Total, load_x-Total, load_y-Total, cpu_compare-Total)

pub cpu_op_adc-Total : Total IsNes cpu_op_adc (λ a. Unit)
unfolding cpu_op_adc
cpu_op_adc-Total = search op_rules depth 20

pub cpu_op_sbc-Total : Total IsNes cpu_op_sbc (λ a. Unit)
unfolding cpu_op_sbc
cpu_op_sbc-Total = search op_rules depth 20

pub cpu_op_and-Total : Total IsNes cpu_op_and (λ a. Unit)
unfolding cpu_op_and
cpu_op_and-Total = search op_rules depth 20

pub cpu_op_bit-Total : Total IsNes cpu_op_bit (λ a. Unit)
unfolding cpu_op_bit
cpu_op_bit-Total = search op_rules depth 20

pub cpu_op_eor-Total : Total IsNes cpu_op_eor (λ a. Unit)
unfolding cpu_op_eor
cpu_op_eor-Total = search op_rules depth 20

pub cpu_op_ora-Total : Total IsNes cpu_op_ora (λ a. Unit)
unfolding cpu_op_ora
cpu_op_ora-Total = search op_rules depth 20

pub cpu_op_cmp-Total : Total IsNes cpu_op_cmp (λ a. Unit)
unfolding cpu_op_cmp
cpu_op_cmp-Total = search op_rules depth 20

pub cpu_op_cpx-Total : Total IsNes cpu_op_cpx (λ a. Unit)
unfolding cpu_op_cpx
cpu_op_cpx-Total = search op_rules depth 20

pub cpu_op_cpy-Total : Total IsNes cpu_op_cpy (λ a. Unit)
unfolding cpu_op_cpy
cpu_op_cpy-Total = search op_rules depth 20

pub cpu_op_asla-Total : Total IsNes cpu_op_asla (λ a. Unit)
unfolding cpu_op_asla
cpu_op_asla-Total = search op_rules depth 20

pub cpu_op_asl-Total : Total IsNes cpu_op_asl (λ a. Unit)
unfolding cpu_op_asl
cpu_op_asl-Total = search op_rules depth 20

pub cpu_op_lsra-Total : Total IsNes cpu_op_lsra (λ a. Unit)
unfolding cpu_op_lsra
cpu_op_lsra-Total = search op_rules depth 20

pub cpu_op_lsr-Total : Total IsNes cpu_op_lsr (λ a. Unit)
unfolding cpu_op_lsr
cpu_op_lsr-Total = search op_rules depth 20

pub cpu_op_rola-Total : Total IsNes cpu_op_rola (λ a. Unit)
unfolding cpu_op_rola
cpu_op_rola-Total = search op_rules depth 20

pub cpu_op_rol-Total : Total IsNes cpu_op_rol (λ a. Unit)
unfolding cpu_op_rol
cpu_op_rol-Total = search op_rules depth 20

pub cpu_op_rora-Total : Total IsNes cpu_op_rora (λ a. Unit)
unfolding cpu_op_rora
cpu_op_rora-Total = search op_rules depth 20

pub cpu_op_ror-Total : Total IsNes cpu_op_ror (λ a. Unit)
unfolding cpu_op_ror
cpu_op_ror-Total = search op_rules depth 20

pub cpu_op_inc-Total : Total IsNes cpu_op_inc (λ a. Unit)
unfolding cpu_op_inc
cpu_op_inc-Total = search op_rules depth 20

pub cpu_op_inx-Total : Total IsNes cpu_op_inx (λ a. Unit)
unfolding cpu_op_inx
cpu_op_inx-Total = search op_rules depth 20

pub cpu_op_iny-Total : Total IsNes cpu_op_iny (λ a. Unit)
unfolding cpu_op_iny
cpu_op_iny-Total = search op_rules depth 20

pub cpu_op_dec-Total : Total IsNes cpu_op_dec (λ a. Unit)
unfolding cpu_op_dec
cpu_op_dec-Total = search op_rules depth 20

pub cpu_op_dex-Total : Total IsNes cpu_op_dex (λ a. Unit)
unfolding cpu_op_dex
cpu_op_dex-Total = search op_rules depth 20

pub cpu_op_dey-Total : Total IsNes cpu_op_dey (λ a. Unit)
unfolding cpu_op_dey
cpu_op_dey-Total = search op_rules depth 20

pub cpu_op_lda-Total : Total IsNes cpu_op_lda (λ a. Unit)
unfolding cpu_op_lda
cpu_op_lda-Total = search op_rules depth 20

pub cpu_op_ldx-Total : Total IsNes cpu_op_ldx (λ a. Unit)
unfolding cpu_op_ldx
cpu_op_ldx-Total = search op_rules depth 20

pub cpu_op_ldy-Total : Total IsNes cpu_op_ldy (λ a. Unit)
unfolding cpu_op_ldy
cpu_op_ldy-Total = search op_rules depth 20

pub cpu_op_sta-Total : Total IsNes cpu_op_sta (λ a. Unit)
unfolding cpu_op_sta
cpu_op_sta-Total = search op_rules depth 20

pub cpu_op_stx-Total : Total IsNes cpu_op_stx (λ a. Unit)
unfolding cpu_op_stx
cpu_op_stx-Total = search op_rules depth 20

pub cpu_op_sty-Total : Total IsNes cpu_op_sty (λ a. Unit)
unfolding cpu_op_sty
cpu_op_sty-Total = search op_rules depth 20

pub cpu_op_tax-Total : Total IsNes cpu_op_tax (λ a. Unit)
unfolding cpu_op_tax
cpu_op_tax-Total = search op_rules depth 20

pub cpu_op_txa-Total : Total IsNes cpu_op_txa (λ a. Unit)
unfolding cpu_op_txa
cpu_op_txa-Total = search op_rules depth 20

pub cpu_op_tay-Total : Total IsNes cpu_op_tay (λ a. Unit)
unfolding cpu_op_tay
cpu_op_tay-Total = search op_rules depth 20

pub cpu_op_tya-Total : Total IsNes cpu_op_tya (λ a. Unit)
unfolding cpu_op_tya
cpu_op_tya-Total = search op_rules depth 20

pub cpu_op_tsx-Total : Total IsNes cpu_op_tsx (λ a. Unit)
unfolding cpu_op_tsx
cpu_op_tsx-Total = search op_rules depth 20

pub cpu_op_txs-Total : Total IsNes cpu_op_txs (λ a. Unit)
unfolding cpu_op_txs
cpu_op_txs-Total = search op_rules depth 20

pub cpu_op_jmp-Total : Total IsNes cpu_op_jmp (λ a. Unit)
unfolding cpu_op_jmp
cpu_op_jmp-Total = search op_rules depth 20

pub cpu_op_jsr-Total : Total IsNes cpu_op_jsr (λ a. Unit)
unfolding cpu_op_jsr
cpu_op_jsr-Total = search (op_rules, cpu_op_jmp-Total) depth 20

pub cpu_op_rts-Total : Total IsNes cpu_op_rts (λ a. Unit)
unfolding cpu_op_rts
cpu_op_rts-Total = search op_rules depth 20

pub cpu_op_brk-Total : Total IsNes cpu_op_brk (λ a. Unit)
unfolding cpu_op_brk
cpu_op_brk-Total = search op_rules depth 20

pub cpu_op_rti-Total : Total IsNes cpu_op_rti (λ a. Unit)
unfolding cpu_op_rti
cpu_op_rti-Total = search op_rules depth 20

pub cpu_op_php-Total : Total IsNes cpu_op_php (λ a. Unit)
unfolding cpu_op_php
cpu_op_php-Total = search op_rules depth 20

pub cpu_op_pha-Total : Total IsNes cpu_op_pha (λ a. Unit)
unfolding cpu_op_pha
cpu_op_pha-Total = search op_rules depth 20

pub cpu_op_pla-Total : Total IsNes cpu_op_pla (λ a. Unit)
unfolding cpu_op_pla
cpu_op_pla-Total = search op_rules depth 20

pub cpu_op_plp-Total : Total IsNes cpu_op_plp (λ a. Unit)
unfolding cpu_op_plp
cpu_op_plp-Total = search op_rules depth 20

pub cpu_branch-Total : (flag : ℕ) (wanted : Bool) → Total IsNes (cpu_branch flag wanted) (λ a. Unit)
unfolding cpu_branch
cpu_branch-Total flag wanted = search (op_rules, cpu_op_jmp-Total) depth 20

pub cpu_assign_flag-Total :
    (flag : ℕ) (value : Bool) → Total IsNes (cpu_assign_flag flag value) (λ a. Unit)
unfolding cpu_assign_flag
cpu_assign_flag-Total flag value = cpu_modify_flag-Total flag value
