-- ===== src/Nes/Cpu/Ops/Extended.antt =====
-- am-kernels/kernels/litenes/src/cpu.c: the extended instruction set, and the function of each
-- element of the handlers' table.
use riscv32_cpu.Base.{◌+◌, bit_and, true, false}
use riscv32_cpu.Word.{u8, u32, ◌>>>◌}
use riscv32_cpu.State.{pure, get, ◌>>=◌, ◌>>◌}
use riscv32_cpu.Nes.{N}
use riscv32_cpu.Nes.Memory.{memory_writeb}
use riscv32_cpu.Nes.Cpu.{
  carry_bp, zero_bp, interrupt_bp, decimal_bp, overflow_bp, negative_bp, set_op_value, cpu_set_x,
}
use riscv32_cpu.Nes.Cpu.Ops.{
  int_sub, load_a, cpu_op_adc, cpu_op_sbc, cpu_op_and, cpu_op_bit, cpu_op_eor, cpu_op_ora,
  cpu_op_cmp, cpu_op_cpx, cpu_op_cpy,
}
use riscv32_cpu.Nes.Cpu.Ops.Shifts.{
  cpu_op_asla, cpu_op_asl, cpu_op_lsra, cpu_op_lsr, cpu_op_rola, cpu_op_rol, cpu_op_rora,
  cpu_op_ror, cpu_op_inc, cpu_op_inx, cpu_op_iny, cpu_op_dec, cpu_op_dex, cpu_op_dey,
}
use riscv32_cpu.Nes.Cpu.Ops.Moves.{
  cpu_op_lda, cpu_op_ldx, cpu_op_ldy, cpu_op_sta, cpu_op_stx, cpu_op_sty, cpu_op_tax, cpu_op_txa,
  cpu_op_tay, cpu_op_tya, cpu_op_tsx, cpu_op_txs, cpu_branch, cpu_op_jmp, cpu_op_jsr, cpu_op_rts,
  cpu_op_brk, cpu_op_rti, cpu_assign_flag, cpu_op_php, cpu_op_pha, cpu_op_pla, cpu_op_plp,
}
use riscv32_cpu.Nes.Cpu.Table.Item.{Handler}

unfoldable pub cpu_op_aso : N (Unit {0})
cpu_op_aso = cpu_op_asl >> cpu_op_ora

unfoldable pub cpu_op_axa : N (Unit {0})
cpu_op_axa = do
  s ← get
  memory_writeb s.op_address (bit_and (bit_and s.cpu.a s.cpu.x) (s.op_address >>> 8))

unfoldable pub cpu_op_axs : N (Unit {0})
cpu_op_axs = do s ← get; memory_writeb s.op_address (bit_and s.cpu.a s.cpu.x)

unfoldable pub cpu_op_dcm : N (Unit {0})
unfolding set_op_value
cpu_op_dcm = do
  s ← get
  let value = bit_and (int_sub s.op_value 1) 0xff
  set_op_value value
  memory_writeb s.op_address value
  cpu_op_cmp

unfoldable pub cpu_op_ins : N (Unit {0})
unfolding set_op_value
cpu_op_ins = do
  s ← get
  let value = bit_and (u32 (s.op_value + 1)) 0xff
  set_op_value value
  memory_writeb s.op_address value
  cpu_op_sbc

-- The value that A takes is that of X, a byte.
unfoldable pub cpu_op_lax : N (Unit {0})
unfolding cpu_set_x
cpu_op_lax = do s ← get; cpu_set_x s.op_value; load_a (u8 s.op_value)

unfoldable pub cpu_op_lse : N (Unit {0})
cpu_op_lse = cpu_op_lsr >> cpu_op_eor

unfoldable pub cpu_op_rla : N (Unit {0})
cpu_op_rla = cpu_op_rol >> cpu_op_and

unfoldable pub cpu_op_rra : N (Unit {0})
cpu_op_rra = cpu_op_ror >> cpu_op_adc

unfoldable pub cpu_op_handler : Handler → N (Unit {0})
cpu_op_handler Handler.adc = cpu_op_adc
cpu_op_handler Handler.and = cpu_op_and
cpu_op_handler Handler.asl = cpu_op_asl
cpu_op_handler Handler.asla = cpu_op_asla
cpu_op_handler Handler.aso = cpu_op_aso
cpu_op_handler Handler.axa = cpu_op_axa
cpu_op_handler Handler.axs = cpu_op_axs
cpu_op_handler Handler.bcc = cpu_branch carry_bp false
cpu_op_handler Handler.bcs = cpu_branch carry_bp true
cpu_op_handler Handler.beq = cpu_branch zero_bp true
cpu_op_handler Handler.bit = cpu_op_bit
cpu_op_handler Handler.bmi = cpu_branch negative_bp true
cpu_op_handler Handler.bne = cpu_branch zero_bp false
cpu_op_handler Handler.bpl = cpu_branch negative_bp false
cpu_op_handler Handler.brk = cpu_op_brk
cpu_op_handler Handler.bvc = cpu_branch overflow_bp false
cpu_op_handler Handler.bvs = cpu_branch overflow_bp true
cpu_op_handler Handler.clc = cpu_assign_flag carry_bp false
cpu_op_handler Handler.cld = cpu_assign_flag decimal_bp false
cpu_op_handler Handler.cli = cpu_assign_flag interrupt_bp false
cpu_op_handler Handler.clv = cpu_assign_flag overflow_bp false
cpu_op_handler Handler.cmp = cpu_op_cmp
cpu_op_handler Handler.cpx = cpu_op_cpx
cpu_op_handler Handler.cpy = cpu_op_cpy
cpu_op_handler Handler.dcm = cpu_op_dcm
cpu_op_handler Handler.dec = cpu_op_dec
cpu_op_handler Handler.dex = cpu_op_dex
cpu_op_handler Handler.dey = cpu_op_dey
cpu_op_handler Handler.eor = cpu_op_eor
cpu_op_handler Handler.inc = cpu_op_inc
cpu_op_handler Handler.ins = cpu_op_ins
cpu_op_handler Handler.inx = cpu_op_inx
cpu_op_handler Handler.iny = cpu_op_iny
cpu_op_handler Handler.jmp = cpu_op_jmp
cpu_op_handler Handler.jsr = cpu_op_jsr
cpu_op_handler Handler.lax = cpu_op_lax
cpu_op_handler Handler.lda = cpu_op_lda
cpu_op_handler Handler.ldx = cpu_op_ldx
cpu_op_handler Handler.ldy = cpu_op_ldy
cpu_op_handler Handler.lse = cpu_op_lse
cpu_op_handler Handler.lsr = cpu_op_lsr
cpu_op_handler Handler.lsra = cpu_op_lsra
cpu_op_handler Handler.nop = pure tt
cpu_op_handler Handler.ora = cpu_op_ora
cpu_op_handler Handler.pha = cpu_op_pha
cpu_op_handler Handler.php = cpu_op_php
cpu_op_handler Handler.pla = cpu_op_pla
cpu_op_handler Handler.plp = cpu_op_plp
cpu_op_handler Handler.rla = cpu_op_rla
cpu_op_handler Handler.rol = cpu_op_rol
cpu_op_handler Handler.rola = cpu_op_rola
cpu_op_handler Handler.ror = cpu_op_ror
cpu_op_handler Handler.rora = cpu_op_rora
cpu_op_handler Handler.rra = cpu_op_rra
cpu_op_handler Handler.rti = cpu_op_rti
cpu_op_handler Handler.rts = cpu_op_rts
cpu_op_handler Handler.sbc = cpu_op_sbc
cpu_op_handler Handler.sec = cpu_assign_flag carry_bp true
cpu_op_handler Handler.sed = cpu_assign_flag decimal_bp true
cpu_op_handler Handler.sei = cpu_assign_flag interrupt_bp true
cpu_op_handler Handler.sta = cpu_op_sta
cpu_op_handler Handler.stx = cpu_op_stx
cpu_op_handler Handler.sty = cpu_op_sty
cpu_op_handler Handler.tax = cpu_op_tax
cpu_op_handler Handler.tay = cpu_op_tay
cpu_op_handler Handler.tsx = cpu_op_tsx
cpu_op_handler Handler.txa = cpu_op_txa
cpu_op_handler Handler.txs = cpu_op_txs
cpu_op_handler Handler.tya = cpu_op_tya
cpu_op_handler Handler.fe = pure tt
