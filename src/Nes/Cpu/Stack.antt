-- ===== src/Nes/Cpu/Stack.antt =====
-- The stack of the 6502: what is pushed is popped, wherever the stack pointer stands.
use riscv32_cpu.Base.{
  ℕ, ◌+◌, ◌-◌, ◌*◌, ◌/◌, ◌%◌, ◌^◌, ◌<◌, false, ◌≡◌, arith, ◌==◌, ==_self, ne→not_==,
}
use riscv32_cpu.Word.{u8, u16, ◌<<<◌}
use riscv32_cpu.Fault.{ok}
use riscv32_cpu.Machine.{update}
use riscv32_cpu.State.{get, put, ◌>>=◌}
use riscv32_cpu.Nes.{Nes}
use riscv32_cpu.Nes.Memory.Ram.{
  with_ram, memory_readb-ram, memory_writeb-ram, memory_readw-ram, memory_writew-ram,
}
use riscv32_cpu.Nes.Cpu.{
  cpu_set_sp, cpu_stack_pushb, cpu_stack_pushw, cpu_stack_popb, cpu_stack_popw,
}

-- The state with another stack pointer.
abbrev with_sp : Nes → ℕ → Nes
with_sp s v = record s { cpu = record (s.cpu) { sp = v } }

module _ (s : Nes) (sp : s.cpu.sp < 2 ^ 8) where
  start : (0xff + s.cpu.sp) % 0x800 ≡ 0xff + s.cpu.sp
  start = omega arith

  next : (0xff + s.cpu.sp + 1) % 0x800 ≡ 0x100 + s.cpu.sp
  next = omega arith

  pushed_word : ℕ → Nes
  pushed_word v =
      with_ram (with_ram (with_sp s (u8 (s.cpu.sp + 2 ^ 8 - 2))) (0xff + s.cpu.sp) (v % 256))
        (0x100 + s.cpu.sp) (v / 256)

  pushw_run : (v : ℕ) → v < 2 ^ 16 → cpu_stack_pushw v s ≡ ok (tt, pushed_word v)
  unfolding cpu_stack_pushw cpu_set_sp ◌>>=◌ get put pushed_word
  pushw_run v h = rw (memory_writew-ram (0xff + s.cpu.sp) s (omega arith) v h, start, next)

  popw_run :
      (r : Nes)
      → u8 (r.cpu.sp + 2) ≡ s.cpu.sp
      → cpu_stack_popw r
        ≡ ok (
          u16 (r.cpu_ram (0xff + s.cpu.sp) + (r.cpu_ram (0x100 + s.cpu.sp) <<< 8)),
          with_sp r s.cpu.sp,
        )
  unfolding cpu_stack_popw cpu_set_sp ◌>>=◌ get put
  popw_run r back =
      rw (back, memory_readw-ram (0xff + s.cpu.sp) (with_sp r s.cpu.sp) (omega arith), start, next)

-- cpu_stack_pushw and then cpu_stack_popw, from every stack pointer: the word comes back, the
-- registers are as before, and of the RAM only the two bytes at 0xff + SP and 0x100 + SP have changed.
pub popw-pushw :
    (s : Nes) (v : ℕ)
    → s.cpu.sp < 2 ^ 8
    → v < 2 ^ 16
    → (cpu_stack_pushw v >>= λ u. cpu_stack_popw) s
      ≡ ok (
        v,
        record s {
          cpu_ram =
              update (update s.cpu_ram (0xff + s.cpu.sp) (v % 256)) (0x100 + s.cpu.sp) (v / 256);
        },
      )
unfolding ◌>>=◌ pushed_word update
popw-pushw s v sp h =
    let back : u8 (u8 (s.cpu.sp + 2 ^ 8 - 2) + 2) ≡ s.cpu.sp = omega arith in
    let low : (0xff + s.cpu.sp == 0x100 + s.cpu.sp) ≡ false = ne→not_== _ _ (omega arith) in
    let whole : u16 (v % 256 + v / 256 * 256) ≡ v = omega arith in
    rw (
      pushw_run s sp v h,
      popw_run s sp (pushed_word s sp v) back,
      ==_self (0xff + s.cpu.sp),
      ==_self (0x100 + s.cpu.sp),
      low,
      whole,
    )

-- cpu_stack_pushb and then cpu_stack_popb, from every stack pointer: the byte comes back, the
-- registers are as before, and of the RAM only the byte at 0x100 + SP has changed.
pub popb-pushb :
    (s : Nes) (v : ℕ)
    → s.cpu.sp < 2 ^ 8
    → v < 2 ^ 8
    → (cpu_stack_pushb v >>= λ u. cpu_stack_popb) s
      ≡ ok (v, record s { cpu_ram = update s.cpu_ram (0x100 + s.cpu.sp) v })
unfolding ◌>>=◌ cpu_stack_pushb cpu_stack_popb cpu_set_sp get put update
popb-pushb s v sp h =
    let back : u8 (u8 (s.cpu.sp + 2 ^ 8 - 1) + 1) ≡ s.cpu.sp = omega arith in
    let place : (0x100 + s.cpu.sp) % 0x800 ≡ 0x100 + s.cpu.sp = omega arith in
    let byte : u8 v ≡ v = omega arith in
    rw (
      memory_writeb-ram (0x100 + s.cpu.sp) (with_sp s (u8 (s.cpu.sp + 2 ^ 8 - 1))) (omega arith) v,
      back,
      place,
      byte,
      memory_readb-ram (0x100 + s.cpu.sp) (with_ram (with_sp s s.cpu.sp) (0x100 + s.cpu.sp) v)
          (omega arith),
      place,
      ==_self (0x100 + s.cpu.sp),
    )
