-- ===== src/Isa/Mips32.antt =====
-- nemu/src/isa/mips32: the decoder, the instructions and the built-in image of MIPS32. The registers
-- and the program counter are those of the record Cpu, and local-include/reg.h is that of riscv32.
pub mod Boot
use riscv32_cpu.Base.{ℕ, ◌+◌, ◌*◌, ◌%◌, ◌^◌, Bool, List, [], ◌∷◌}
use riscv32_cpu.Word.{u32, u64, bits, sext, ◌<<<◌}
use riscv32_cpu.Machine.{Machine, update, M, pure, get, put, ◌>>=◌, ◌>>◌}
use riscv32_cpu.Memory.Range.{reset_vector, guest_to_host}
use riscv32_cpu.Memory.Paddr.{vaddr_read, vaddr_write, inst_fetch}
use riscv32_cpu.Isa.Hostcall.{invalid_inst, nemutrap}
use riscv32_cpu.Isa.Instpat.{Decode, instpat}
use riscv32_cpu.Isa.Riscv32.{gpr, set_gpr, Operands}
use riscv32_cpu.Isa.Riscv32.Boot.{copy_words, restart}

pub data InstType : Type 0 where
  type_i type_u type_n : InstType

unfoldable pub imm_i : ℕ → ℕ
unfolding bits sext
imm_i i = u32 (sext (bits i 15 0) 16)

unfoldable pub imm_u : ℕ → ℕ
unfolding bits
imm_u i = bits i 15 0

-- No type of the table has a second source.
unfoldable pub decode_operand : ℕ → InstType → M Operands
unfolding bits gpr imm_i imm_u
decode_operand i type_i = do
  src1 ← gpr (bits i 25 21)
  pure (record { rd = bits i 20 16; src1 = src1; src2 = 0; imm = imm_i i })
decode_operand i type_u = do
  src1 ← gpr (bits i 25 21)
  pure (record { rd = bits i 20 16; src1 = src1; src2 = 0; imm = imm_u i })
decode_operand i type_n = pure (record { rd = bits i 15 11; src1 = 0; src2 = 0; imm = 0 })

module _ (device : Bool) (s : Decode) where
  -- The bodies of the patterns.
  unfoldable pub lui : Operands → M (Unit {0})
  lui o = set_gpr o.rd (u32 (o.imm * 2 ^ 16))

  unfoldable pub lw : Operands → M (Unit {0})
  lw o = do v ← vaddr_read device (u32 (o.src1 + o.imm)) 4; set_gpr o.rd v

  unfoldable pub sw : Operands → M (Unit {0})
  sw o = do v ← gpr o.rd; vaddr_write device (u32 (o.src1 + o.imm)) 4 v

  unfoldable pub sdbbp : Operands → M (Unit {0})
  sdbbp o = do code ← gpr 2; nemutrap s.pc code

  unfoldable pub inv : Operands → M (Unit {0})
  inv o = invalid_inst device s.pc

  -- INSTPAT_MATCH
  unfoldable pub instpat_match : InstType → (Operands → M (Unit {0})) → M (Unit {0})
  instpat_match type body = do o ← decode_operand s.inst type; body o

  unfoldable pub dispatch : M (Unit {0})
  dispatch = instpat s.inst "001111 ????? ????? ????? ????? ??????" (instpat_match type_u lui) (
      instpat s.inst "100011 ????? ????? ????? ????? ??????" (instpat_match type_i lw) (
        instpat s.inst "101011 ????? ????? ????? ????? ??????" (instpat_match type_i sw) (
          instpat s.inst "011100 ????? ????? ????? ????? 111111" (instpat_match type_n sdbbp) (
            instpat s.inst "?????? ????? ????? ????? ????? ??????" (instpat_match type_n inv)
              (pure tt)))))

unfoldable pub decode_exec : Bool → Decode → M Decode
decode_exec device s = do
  let next = record s { dnpc = s.snpc }
  dispatch device next
  set_gpr 0 0
  pure next

unfoldable pub isa_exec_once : Bool → Decode → M Decode
isa_exec_once device s = do
  fetched ← inst_fetch device s.snpc 4
  decode_exec device (record s { inst = fetched.0; snpc = fetched.1 })

-- init.c; restart is the same function as riscv32's.
abbrev pub img : List ℕ
img = 0x3c048000 ∷ 0xac800000 ∷ 0x8c820000 ∷ 0x7000003f ∷ []

unfoldable pub init_isa : M (Unit {0})
unfolding copy_words guest_to_host restart
init_isa = do
  s ← get
  put (record s { pmem = copy_words s.pmem (guest_to_host reset_vector) img })
  restart
