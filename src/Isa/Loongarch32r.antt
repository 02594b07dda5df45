-- ===== src/Isa/Loongarch32r.antt =====
-- nemu/src/isa/loongarch32r: the decoder, the instructions and the built-in image of LoongArch32. The registers
-- and the program counter are those of the record Cpu, and local-include/reg.h is that of riscv32.
pub mod Boot
use riscv32_cpu.Base.{ℕ, ◌+◌, ◌*◌, ◌%◌, ◌^◌, Bool, List, [], ◌∷◌}
use riscv32_cpu.Word.{u32, u64, bits, sext, ◌<<<◌}
use riscv32_cpu.Machine.{Machine, update, M, pure, get, put, ◌>>=◌, ◌>>◌}
use riscv32_cpu.Memory.Range.{reset_vector, guest_to_host}
use riscv32_cpu.Memory.Paddr.{vaddr_read, vaddr_write, inst_fetch}
use riscv32_cpu.Isa.Hostcall.{invalid_inst, nemutrap}
use riscv32_cpu.Isa.Instpat.{Decode, instpat}
use riscv32_cpu.Isa.Riscv32.{gpr, set_gpr, Operands}
use riscv32_cpu.Isa.Riscv32.Boot.{copy_words, restart}

pub data InstType : Type 0 where
  type_2ri12 type_1ri20 type_n : InstType

unfoldable pub simm12 : ℕ → ℕ
unfolding bits sext
simm12 i = u32 (sext (bits i 21 10) 12)

unfoldable pub simm20 : ℕ → ℕ
unfolding bits sext
simm20 i = u32 (u64 (sext (bits i 24 5) 20 <<< 12))

-- No type of the table has a second source.
unfoldable pub decode_operand : ℕ → InstType → M Operands
unfolding bits gpr simm12 simm20
decode_operand i type_1ri20 = do
  src1 ← gpr (bits i 9 5)
  pure (record { rd = bits i 4 0; src1 = src1; src2 = 0; imm = simm20 i })
decode_operand i type_2ri12 = do
  src1 ← gpr (bits i 9 5)
  pure (record { rd = bits i 4 0; src1 = src1; src2 = 0; imm = simm12 i })
decode_operand i type_n = pure (record { rd = bits i 4 0; src1 = 0; src2 = 0; imm = 0 })

module _ (device : Bool) (s : Decode) where
  -- The bodies of the patterns.
  unfoldable pub pcaddu12i : Operands → M (Unit {0})
  pcaddu12i o = set_gpr o.rd (u32 (s.pc + o.imm))

  unfoldable pub ld_w : Operands → M (Unit {0})
  ld_w o = do v ← vaddr_read device (u32 (o.src1 + o.imm)) 4; set_gpr o.rd v

  unfoldable pub st_w : Operands → M (Unit {0})
  st_w o = do v ← gpr o.rd; vaddr_write device (u32 (o.src1 + o.imm)) 4 v

  unfoldable pub break : Operands → M (Unit {0})
  break o = do code ← gpr 4; nemutrap s.pc code

  unfoldable pub inv : Operands → M (Unit {0})
  inv o = invalid_inst device s.pc

  -- INSTPAT_MATCH
  unfoldable pub instpat_match : InstType → (Operands → M (Unit {0})) → M (Unit {0})
  instpat_match type body = do o ← decode_operand s.inst type; body o

  unfoldable pub dispatch : M (Unit {0})
  dispatch =
      instpat s.inst "0001110 ????? ????? ????? ????? ?????" (instpat_match type_1ri20 pcaddu12i) (
        instpat s.inst "0010100010 ???????????? ????? ?????" (instpat_match type_2ri12 ld_w) (
          instpat s.inst "0010100110 ???????????? ????? ?????" (instpat_match type_2ri12 st_w) (
            instpat s.inst "0000 0000 0010 10100 ????? ????? ?????" (instpat_match type_n break) (
              instpat s.inst "????????????????? ????? ????? ?????" (instpat_match type_n inv)
                (pure tt)))))

unfoldable pub decode_exec : Bool → Decode → M Decode
decode_exec device s = do
  let next = record s { dnpc = s.snpc }
  dispatch device next
  set_gpr 0 0
  pure next

unfoldable pub isa_exec_once : Bool → Decode → M Decode
isa_exec_once device s = do
  fetched ← inst_fetch device s.snpc 4
  decode_exec device (record s { inst = fetched.0; snpc = fetched.1 })

-- init.c; restart is the same function as riscv32's.
abbrev pub img : List ℕ
img = 0x1c00000c ∷ 0x29804180 ∷ 0x28804184 ∷ 0x002a0000 ∷ 0xdeadbeef ∷ []

unfoldable pub init_isa : M (Unit {0})
unfolding copy_words guest_to_host restart
init_isa = do
  s ← get
  put (record s { pmem = copy_words s.pmem (guest_to_host reset_vector) img })
  restart
