-- ===== src/Isa/Riscv32.antt =====
-- nemu/src/isa/riscv32: the registers, the decoder and the instructions of RV32.
pub mod Dispatch
pub mod Operand
pub mod Encode
pub mod Valid
pub mod Spec
pub mod Run
pub mod Boot
use riscv32_cpu.Base.{ℕ, ◌+◌, ◌-◌, ◌*◌, ◌/◌, ◌%◌, ◌^◌, bit_or, Bool, ltb, ◌==◌, if◌then◌else◌}
use riscv32_cpu.Word.{u32, u64, bits, sext, ◌<<<◌}
use riscv32_cpu.Machine.{update, Cpu, Machine, M, pure, get, put, assert, ◌>>=◌, ◌>>◌}
use riscv32_cpu.Memory.Paddr.{vaddr_read, vaddr_write, inst_fetch}
use riscv32_cpu.Isa.Hostcall.{invalid_inst, nemutrap}
use riscv32_cpu.Isa.Instpat.{Decode, instpat}

-- `R(i)`, as a value and as the target of an assignment. check_reg_idx asserts the index, as
-- CONFIG_RT_CHECK is on.
unfoldable pub gpr : ℕ → M ℕ
gpr idx = do assert (ltb idx 32); s ← get; pure (s.cpu.gpr idx)

unfoldable pub set_gpr : ℕ → ℕ → M (Unit {0})
unfolding update
set_gpr idx v = do
  assert (ltb idx 32)
  s ← get
  put (record s { cpu = record (s.cpu) { gpr = update s.cpu.gpr idx v } })

pub data InstType : Type 0 where
  type_i type_u type_s type_n : InstType

unfoldable pub imm_i : ℕ → ℕ
unfolding bits sext
imm_i i = u32 (sext (bits i 31 20) 12)

unfoldable pub imm_u : ℕ → ℕ
unfolding bits sext
imm_u i = u32 (u64 (sext (bits i 31 12) 20 <<< 12))

unfoldable pub imm_s : ℕ → ℕ
unfolding bits sext
imm_s i = u32 (bit_or (u64 (sext (bits i 31 25) 7 <<< 5)) (bits i 11 7))

-- What decode_operand stores through its pointers, which point to zeros.
pub record Operands : Type 0 where
  pub rd : ℕ
  pub src1 : ℕ
  pub src2 : ℕ
  pub imm : ℕ

unfoldable pub decode_operand : ℕ → InstType → M Operands
unfolding bits gpr imm_i imm_u imm_s
decode_operand i type_i = do
  src1 ← gpr (bits i 19 15)
  pure (record { rd = bits i 11 7; src1 = src1; src2 = 0; imm = imm_i i })
decode_operand i type_u = pure (record { rd = bits i 11 7; src1 = 0; src2 = 0; imm = imm_u i })
decode_operand i type_s = do
  src1 ← gpr (bits i 19 15)
  src2 ← gpr (bits i 24 20)
  pure (record { rd = bits i 11 7; src1 = src1; src2 = src2; imm = imm_s i })
decode_operand i type_n = pure (record { rd = bits i 11 7; src1 = 0; src2 = 0; imm = 0 })

module _ (device : Bool) (s : Decode) where
  -- The bodies of the patterns.
  unfoldable pub auipc : Operands → M (Unit {0})
  auipc o = set_gpr o.rd (u32 (s.pc + o.imm))

  unfoldable pub lbu : Operands → M (Unit {0})
  lbu o = do v ← vaddr_read device (u32 (o.src1 + o.imm)) 1; set_gpr o.rd v

  unfoldable pub sb : Operands → M (Unit {0})
  sb o = vaddr_write device (u32 (o.src1 + o.imm)) 1 o.src2

  unfoldable pub ebreak : Operands → M (Unit {0})
  ebreak o = do code ← gpr 10; nemutrap s.pc code

  unfoldable pub inv : Operands → M (Unit {0})
  inv o = invalid_inst device s.pc

  -- INSTPAT_MATCH, as it is meant: in the source a comment behind the backslash after
  -- decode_operand cuts the macro off there.
  unfoldable pub instpat_match : InstType → (Operands → M (Unit {0})) → M (Unit {0})
  instpat_match type body = do o ← decode_operand s.inst type; body o

  unfoldable pub dispatch : M (Unit {0})
  dispatch = instpat s.inst "??????? ????? ????? ??? ????? 00101 11" (instpat_match type_u auipc) (
      instpat s.inst "??????? ????? ????? 100 ????? 00000 11" (instpat_match type_i lbu) (
        instpat s.inst "??????? ????? ????? 000 ????? 01000 11" (instpat_match type_s sb) (
          instpat s.inst "0000000 00001 00000 000 00000 11100 11" (instpat_match type_n ebreak) (
            instpat s.inst "??????? ????? ????? ??? ????? ????? ??" (instpat_match type_n inv)
              (pure tt)))))

-- The new Decode is returned; the result 0 is dropped.
unfoldable pub decode_exec : Bool → Decode → M Decode
decode_exec device s = do
  let next = record s { dnpc = s.snpc }
  dispatch device next
  set_gpr 0 0
  pure next

unfoldable pub isa_exec_once : Bool → Decode → M Decode
isa_exec_once device s = do
  fetched ← inst_fetch device s.snpc 4
  decode_exec device (record s { inst = fetched.0; snpc = fetched.1 })
