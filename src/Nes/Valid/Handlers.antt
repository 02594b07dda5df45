-- ===== src/Nes/Valid/Handlers.antt =====
-- The instructions of the 6502: each returns, and keeps the state well-formed.
use riscv32_cpu.Base.{true, false}
use riscv32_cpu.State.Total.{Total, Total-get, Total-then, Total-pure}
use riscv32_cpu.Nes.Cpu.Table.Item.{Handler}
use riscv32_cpu.Nes.Cpu.Ops.Extended.{
  cpu_op_aso, cpu_op_axa, cpu_op_axs, cpu_op_dcm, cpu_op_ins, cpu_op_lax, cpu_op_lse, cpu_op_rla,
  cpu_op_rra, cpu_op_handler,
}
use riscv32_cpu.Nes.Valid.{IsNes}
use riscv32_cpu.Nes.Valid.Cpu.{cpu_set_x-Total, set_op_value-Total}
use riscv32_cpu.Nes.Valid.Memory.{memory_writeb-Total}
use riscv32_cpu.Nes.Valid.Ops.{
  cpu_op_adc-Total, cpu_op_and-Total, cpu_op_asl-Total, cpu_op_asla-Total, cpu_op_bit-Total,
  cpu_op_brk-Total, cpu_op_cmp-Total, cpu_op_cpx-Total, cpu_op_cpy-Total, cpu_op_dec-Total,
  cpu_op_dex-Total, cpu_op_dey-Total, cpu_op_eor-Total, cpu_op_inc-Total, cpu_op_inx-Total,
  cpu_op_iny-Total, cpu_op_jmp-Total, cpu_op_jsr-Total, cpu_op_lda-Total, cpu_op_ldx-Total,
  cpu_op_ldy-Total, cpu_op_lsr-Total, cpu_op_lsra-Total, cpu_op_ora-Total, cpu_op_pha-Total,
  cpu_op_php-Total, cpu_op_pla-Total, cpu_op_plp-Total, cpu_op_rol-Total, cpu_op_rola-Total,
  cpu_op_ror-Total, cpu_op_rora-Total, cpu_op_rti-Total, cpu_op_rts-Total, cpu_op_sbc-Total,
  cpu_op_sta-Total, cpu_op_stx-Total, cpu_op_sty-Total, cpu_op_tax-Total, cpu_op_tay-Total,
  cpu_op_tsx-Total, cpu_op_txa-Total, cpu_op_txs-Total, cpu_op_tya-Total, load_a-Total,
  cpu_branch-Total, cpu_assign_flag-Total,
}

ruleset extended_rules = (
  Total-get, Total-then, memory_writeb-Total, set_op_value-Total, cpu_set_x-Total, load_a-Total,
  cpu_op_sbc-Total, cpu_op_cmp-Total,
)

cpu_op_aso-Total : Total IsNes cpu_op_aso (λ a. Unit)
unfolding cpu_op_aso
cpu_op_aso-Total = Total-then _ _ cpu_op_asl-Total (λ _. cpu_op_ora-Total)

cpu_op_axa-Total : Total IsNes cpu_op_axa (λ a. Unit)
unfolding cpu_op_axa
cpu_op_axa-Total = search extended_rules depth 20

cpu_op_axs-Total : Total IsNes cpu_op_axs (λ a. Unit)
unfolding cpu_op_axs
cpu_op_axs-Total = search extended_rules depth 20

cpu_op_dcm-Total : Total IsNes cpu_op_dcm (λ a. Unit)
unfolding cpu_op_dcm
cpu_op_dcm-Total = search extended_rules depth 20

cpu_op_ins-Total : Total IsNes cpu_op_ins (λ a. Unit)
unfolding cpu_op_ins
cpu_op_ins-Total = search extended_rules depth 20

cpu_op_lax-Total : Total IsNes cpu_op_lax (λ a. Unit)
unfolding cpu_op_lax
cpu_op_lax-Total = search extended_rules depth 20

cpu_op_lse-Total : Total IsNes cpu_op_lse (λ a. Unit)
unfolding cpu_op_lse
cpu_op_lse-Total = Total-then _ _ cpu_op_lsr-Total (λ _. cpu_op_eor-Total)

cpu_op_rla-Total : Total IsNes cpu_op_rla (λ a. Unit)
unfolding cpu_op_rla
cpu_op_rla-Total = Total-then _ _ cpu_op_rol-Total (λ _. cpu_op_and-Total)

cpu_op_rra-Total : Total IsNes cpu_op_rra (λ a. Unit)
unfolding cpu_op_rra
cpu_op_rra-Total = Total-then _ _ cpu_op_ror-Total (λ _. cpu_op_adc-Total)

pub cpu_op_handler-Total : (f : Handler) → Total IsNes (cpu_op_handler f) (λ a. Unit)
unfolding cpu_op_handler
cpu_op_handler-Total Handler.adc = cpu_op_adc-Total
cpu_op_handler-Total Handler.and = cpu_op_and-Total
cpu_op_handler-Total Handler.asl = cpu_op_asl-Total
cpu_op_handler-Total Handler.asla = cpu_op_asla-Total
cpu_op_handler-Total Handler.aso = cpu_op_aso-Total
cpu_op_handler-Total Handler.axa = cpu_op_axa-Total
cpu_op_handler-Total Handler.axs = cpu_op_axs-Total
cpu_op_handler-Total Handler.bcc = cpu_branch-Total _ false
cpu_op_handler-Total Handler.bcs = cpu_branch-Total _ true
cpu_op_handler-Total Handler.beq = cpu_branch-Total _ true
cpu_op_handler-Total Handler.bit = cpu_op_bit-Total
cpu_op_handler-Total Handler.bmi = cpu_branch-Total _ true
cpu_op_handler-Total Handler.bne = cpu_branch-Total _ false
cpu_op_handler-Total Handler.bpl = cpu_branch-Total _ false
cpu_op_handler-Total Handler.brk = cpu_op_brk-Total
cpu_op_handler-Total Handler.bvc = cpu_branch-Total _ false
cpu_op_handler-Total Handler.bvs = cpu_branch-Total _ true
cpu_op_handler-Total Handler.clc = cpu_assign_flag-Total _ false
cpu_op_handler-Total Handler.cld = cpu_assign_flag-Total _ false
cpu_op_handler-Total Handler.cli = cpu_assign_flag-Total _ false
cpu_op_handler-Total Handler.clv = cpu_assign_flag-Total _ false
cpu_op_handler-Total Handler.cmp = cpu_op_cmp-Total
cpu_op_handler-Total Handler.cpx = cpu_op_cpx-Total
cpu_op_handler-Total Handler.cpy = cpu_op_cpy-Total
cpu_op_handler-Total Handler.dcm = cpu_op_dcm-Total
cpu_op_handler-Total Handler.dec = cpu_op_dec-Total
cpu_op_handler-Total Handler.dex = cpu_op_dex-Total
cpu_op_handler-Total Handler.dey = cpu_op_dey-Total
cpu_op_handler-Total Handler.eor = cpu_op_eor-Total
cpu_op_handler-Total Handler.inc = cpu_op_inc-Total
cpu_op_handler-Total Handler.ins = cpu_op_ins-Total
cpu_op_handler-Total Handler.inx = cpu_op_inx-Total
cpu_op_handler-Total Handler.iny = cpu_op_iny-Total
cpu_op_handler-Total Handler.jmp = cpu_op_jmp-Total
cpu_op_handler-Total Handler.jsr = cpu_op_jsr-Total
cpu_op_handler-Total Handler.lax = cpu_op_lax-Total
cpu_op_handler-Total Handler.lda = cpu_op_lda-Total
cpu_op_handler-Total Handler.ldx = cpu_op_ldx-Total
cpu_op_handler-Total Handler.ldy = cpu_op_ldy-Total
cpu_op_handler-Total Handler.lse = cpu_op_lse-Total
cpu_op_handler-Total Handler.lsr = cpu_op_lsr-Total
cpu_op_handler-Total Handler.lsra = cpu_op_lsra-Total
cpu_op_handler-Total Handler.nop = Total-pure tt
cpu_op_handler-Total Handler.ora = cpu_op_ora-Total
cpu_op_handler-Total Handler.pha = cpu_op_pha-Total
cpu_op_handler-Total Handler.php = cpu_op_php-Total
cpu_op_handler-Total Handler.pla = cpu_op_pla-Total
cpu_op_handler-Total Handler.plp = cpu_op_plp-Total
cpu_op_handler-Total Handler.rla = cpu_op_rla-Total
cpu_op_handler-Total Handler.rol = cpu_op_rol-Total
cpu_op_handler-Total Handler.rola = cpu_op_rola-Total
cpu_op_handler-Total Handler.ror = cpu_op_ror-Total
cpu_op_handler-Total Handler.rora = cpu_op_rora-Total
cpu_op_handler-Total Handler.rra = cpu_op_rra-Total
cpu_op_handler-Total Handler.rti = cpu_op_rti-Total
cpu_op_handler-Total Handler.rts = cpu_op_rts-Total
cpu_op_handler-Total Handler.sbc = cpu_op_sbc-Total
cpu_op_handler-Total Handler.sec = cpu_assign_flag-Total _ true
cpu_op_handler-Total Handler.sed = cpu_assign_flag-Total _ true
cpu_op_handler-Total Handler.sei = cpu_assign_flag-Total _ true
cpu_op_handler-Total Handler.sta = cpu_op_sta-Total
cpu_op_handler-Total Handler.stx = cpu_op_stx-Total
cpu_op_handler-Total Handler.sty = cpu_op_sty-Total
cpu_op_handler-Total Handler.tax = cpu_op_tax-Total
cpu_op_handler-Total Handler.tay = cpu_op_tay-Total
cpu_op_handler-Total Handler.tsx = cpu_op_tsx-Total
cpu_op_handler-Total Handler.txa = cpu_op_txa-Total
cpu_op_handler-Total Handler.txs = cpu_op_txs-Total
cpu_op_handler-Total Handler.tya = cpu_op_tya-Total
cpu_op_handler-Total Handler.fe = Total-pure tt
