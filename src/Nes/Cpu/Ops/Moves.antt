-- ===== src/Nes/Cpu/Ops/Moves.antt =====
-- am-kernels/kernels/litenes/src/cpu.c: loads, stores, transfers, branches, jumps, the flags and the
-- stack.
use riscv32_cpu.Base.{ℕ, ◌+◌, ◌-◌, ◌^◌, bit_and, bit_or, Bool, if◌then◌else◌}
use riscv32_cpu.Word.{u16}
use riscv32_cpu.State.{pure, get, ◌>>=◌, ◌>>◌}
use riscv32_cpu.Nes.{N}
use riscv32_cpu.Nes.Memory.{memory_writeb}
use riscv32_cpu.Nes.Cpu.{
  cpu_flag_set, cpu_modify_flag, cpu_set_p, cpu_set_sp, cpu_set_pc, cpu_nmi_interrupt_address,
  cpu_stack_pushb, cpu_stack_pushw, cpu_stack_popb, cpu_stack_popw,
}
use riscv32_cpu.Nes.Cpu.Ops.{load_a, load_x, load_y}

unfoldable pub cpu_op_lda : N (Unit {0})
unfolding load_a
cpu_op_lda = do s ← get; load_a s.op_value

unfoldable pub cpu_op_ldx : N (Unit {0})
unfolding load_x
cpu_op_ldx = do s ← get; load_x s.op_value

unfoldable pub cpu_op_ldy : N (Unit {0})
unfolding load_y
cpu_op_ldy = do s ← get; load_y s.op_value

unfoldable pub cpu_op_sta : N (Unit {0})
cpu_op_sta = do s ← get; memory_writeb s.op_address s.cpu.a

unfoldable pub cpu_op_stx : N (Unit {0})
cpu_op_stx = do s ← get; memory_writeb s.op_address s.cpu.x

unfoldable pub cpu_op_sty : N (Unit {0})
cpu_op_sty = do s ← get; memory_writeb s.op_address s.cpu.y

unfoldable pub cpu_op_tax : N (Unit {0})
unfolding load_x
cpu_op_tax = do s ← get; load_x s.cpu.a

unfoldable pub cpu_op_txa : N (Unit {0})
unfolding load_a
cpu_op_txa = do s ← get; load_a s.cpu.x

unfoldable pub cpu_op_tay : N (Unit {0})
unfolding load_y
cpu_op_tay = do s ← get; load_y s.cpu.a

unfoldable pub cpu_op_tya : N (Unit {0})
unfolding load_a
cpu_op_tya = do s ← get; load_a s.cpu.y

unfoldable pub cpu_op_tsx : N (Unit {0})
unfolding load_x
cpu_op_tsx = do s ← get; load_x s.cpu.sp

unfoldable pub cpu_op_txs : N (Unit {0})
unfolding cpu_set_sp
cpu_op_txs = do s ← get; cpu_set_sp s.cpu.x

unfoldable pub cpu_op_jmp : N (Unit {0})
unfolding cpu_set_pc
cpu_op_jmp = do s ← get; cpu_set_pc s.op_address

-- cpu_branch, taken where the flag is set or where it is not: bcs, beq, bmi and bvs, and bcc, bne, bpl
-- and bvc.
unfoldable pub cpu_branch : ℕ → Bool → N (Unit {0})
unfolding cpu_op_jmp
cpu_branch flag wanted = do
  set ← cpu_flag_set flag
  if set then (if wanted then cpu_op_jmp else pure tt) else (if wanted then pure tt else cpu_op_jmp)

unfoldable pub cpu_op_jsr : N (Unit {0})
unfolding cpu_op_jmp
cpu_op_jsr = do s ← get; cpu_stack_pushw (u16 (s.cpu.pc + 2 ^ 16 - 1)); cpu_op_jmp

unfoldable pub cpu_op_rts : N (Unit {0})
unfolding cpu_set_pc
cpu_op_rts = do address ← cpu_stack_popw; cpu_set_pc (address + 1)

-- `unused_flag | break_flag` is 0x30. The vector is that of the NMI.
unfoldable pub cpu_op_brk : N (Unit {0})
unfolding cpu_set_p cpu_set_pc
cpu_op_brk = do
  s ← get
  cpu_stack_pushw (u16 (s.cpu.pc + 2 ^ 16 - 1))
  t ← get
  cpu_stack_pushb t.cpu.p
  r ← get
  cpu_set_p (bit_or r.cpu.p 0x30)
  address ← cpu_nmi_interrupt_address
  cpu_set_pc address

unfoldable pub cpu_op_rti : N (Unit {0})
unfolding cpu_set_p cpu_set_pc
cpu_op_rti = do
  p ← cpu_stack_popb
  cpu_set_p (bit_or p 0x20)
  address ← cpu_stack_popw
  cpu_set_pc address

-- clc, cld, cli and clv, and sec, sed and sei: cpu_unset_flag and cpu_set_flag.
unfoldable pub cpu_assign_flag : ℕ → Bool → N (Unit {0})
unfolding cpu_modify_flag
cpu_assign_flag flag value = cpu_modify_flag flag value

unfoldable pub cpu_op_php : N (Unit {0})
cpu_op_php = do s ← get; cpu_stack_pushb (bit_or s.cpu.p 0x30)

unfoldable pub cpu_op_pha : N (Unit {0})
cpu_op_pha = do s ← get; cpu_stack_pushb s.cpu.a

unfoldable pub cpu_op_pla : N (Unit {0})
cpu_op_pla = do v ← cpu_stack_popb; load_a v

unfoldable pub cpu_op_plp : N (Unit {0})
unfolding cpu_set_p
cpu_op_plp = do v ← cpu_stack_popb; cpu_set_p (bit_or (bit_and v 0xef) 0x20)
