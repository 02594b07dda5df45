-- ===== src/Isa/Riscv32/Dispatch.antt =====
-- Which body the table of patterns runs, said by the fields of the instruction word.
use Prim.Native.String.{String}
use native.Mathlib.Nat.{div-one}
use riscv32_cpu.Base.{
  ℕ, ◌+◌, ◌*◌, ◌/◌, ◌%◌, ◌^◌, ◌<◌, bit_and, ◌≡◌, refl, ap, ◌∙◌, fun_ext, Bool, true, false, ◌&&◌,
  arith, ◌==◌, if◌then◌else◌,
}
use riscv32_cpu.Fault.{ok}
use riscv32_cpu.Machine.{M, ◌>>=◌}
use riscv32_cpu.Word.Bits.{bit_and_mask, bit_and-zero}
use riscv32_cpu.Pattern.{Key, pattern_decode, selects}
use riscv32_cpu.Pattern.Split.{bit_and_split}
use riscv32_cpu.Isa.Instpat.{Decode, codes, instpat}
use riscv32_cpu.Isa.Riscv32
use riscv32_cpu.Isa.Riscv32.{type_i, type_u, type_s, type_n, instpat_match, dispatch}

-- The instructions that the table knows; `inv` is any other word.
pub data Op : Type 0 where
  auipc lbu sb ebreak inv : Op

-- By the base opcode in the low seven bits and funct3 in bits 12 to 14.
unfoldable pub op_of : ℕ → Op
op_of inst =
    let opcode = inst % 128 in
    let funct3 = inst / 4096 % 8 in
    if opcode == 0x17
    then Op.auipc
    else if opcode == 0x03 && funct3 == 4
    then Op.lbu
    else if opcode == 0x23 && funct3 == 0
    then Op.sb
    else if inst == 0x100073
    then Op.ebreak
    else Op.inv

unfoldable pub body_of : Bool → Decode → Op → M (Unit {0})
body_of device s Op.auipc = instpat_match device s type_u (Riscv32.auipc device s)
body_of device s Op.lbu = instpat_match device s type_i (Riscv32.lbu device s)
body_of device s Op.sb = instpat_match device s type_s (Riscv32.sb device s)
body_of device s Op.ebreak = instpat_match device s type_n (Riscv32.ebreak device s)
body_of device s Op.inv = instpat_match device s type_n (Riscv32.inv device s)

-- A line of the table whose pattern is decoded.
instpat_lem :
    {A : Type 0} (inst : ℕ) (pattern : String) (k : Key) (body below : M A)
    → pattern_decode (codes pattern) ≡ ok k
    → instpat inst pattern body below ≡ (if selects k inst then body else below)
unfolding instpat ◌>>=◌
instpat_lem inst pattern k body below e = fun_ext (λ s. rw e)

abbrev no_shift : ℕ → ℕ → Key
no_shift key mask = record { key = key; mask = mask; shift = 0 }

-- The four masks: the opcode, the opcode with funct3, the whole word, nothing.
selects_opcode : (inst key : ℕ) → selects (no_shift key 0x7f) inst ≡ (inst % 128 == key)
unfolding selects
selects_opcode inst key =
    ap (λ t. bit_and t 127 == key) (div-one inst) ∙ ap (λ t. t == key) (bit_and_mask 7 inst)

selects_funct3 :
    (inst opcode funct3 : ℕ)
    → opcode < 128
    → selects (no_shift (funct3 * 4096 + opcode) 0x707f) inst
      ≡ (inst % 128 == opcode && inst / 4096 % 8 == funct3)
unfolding selects
selects_funct3 inst opcode funct3 low =
    rw
      (
        div-one inst,
        bit_and_split 12 inst 7 127 (omega arith),
        bit_and_mask 3 (inst / 4096),
        bit_and_mask 7 inst,
      )
      (ground arith)

selects_word :
    (inst key : ℕ) → inst < 2 ^ 32 → selects (no_shift key 0xffffffff) inst ≡ (inst == key)
unfolding selects
selects_word inst key word = rw (div-one inst, bit_and_mask 32 inst) (ground arith)

selects_any : (inst : ℕ) → selects (record { key = 0; mask = 0; shift = 32 }) inst ≡ true
unfolding selects
selects_any inst = rw (bit_and-zero (inst / 2 ^ 32))

-- Each line of the table, with its test in terms of the fields.
module _ {A : Type 0} (inst : ℕ) (word : inst < 2 ^ 32) (body below : M A) where
  auipc_line :
      instpat inst "??????? ????? ????? ??? ????? 00101 11" body below
      ≡ (if inst % 128 == 0x17 then body else below)
  unfolding pattern_decode
  auipc_line =
      instpat_lem inst "??????? ????? ????? ??? ????? 00101 11" (no_shift 0x17 0x7f) body below refl
      ∙ ap (λ b. if b then body else below) (selects_opcode inst 0x17)

  lbu_line :
      instpat inst "??????? ????? ????? 100 ????? 00000 11" body below
      ≡ (if inst % 128 == 0x03 && inst / 4096 % 8 == 4 then body else below)
  unfolding pattern_decode
  lbu_line =
      instpat_lem inst "??????? ????? ????? 100 ????? 00000 11" (no_shift (4 * 4096 + 0x03) 0x707f)
        body below refl
      ∙ ap (λ b. if b then body else below) (selects_funct3 inst 0x03 4 (omega arith))

  sb_line :
      instpat inst "??????? ????? ????? 000 ????? 01000 11" body below
      ≡ (if inst % 128 == 0x23 && inst / 4096 % 8 == 0 then body else below)
  unfolding pattern_decode
  sb_line =
      instpat_lem inst "??????? ????? ????? 000 ????? 01000 11" (no_shift (0 * 4096 + 0x23) 0x707f)
        body below refl
      ∙ ap (λ b. if b then body else below) (selects_funct3 inst 0x23 0 (omega arith))

  ebreak_line :
      instpat inst "0000000 00001 00000 000 00000 11100 11" body below
      ≡ (if inst == 0x100073 then body else below)
  unfolding pattern_decode
  ebreak_line =
      instpat_lem inst "0000000 00001 00000 000 00000 11100 11" (no_shift 0x100073 0xffffffff) body
        below refl
      ∙ ap (λ b. if b then body else below) (selects_word inst 0x100073 word)

  inv_line :
      instpat inst "??????? ????? ????? ??? ????? ????? ??" body below
      ≡ (if true then body else below)
  unfolding pattern_decode
  inv_line =
      instpat_lem inst "??????? ????? ????? ??? ????? ????? ??"
        (record { key = 0; mask = 0; shift = 32 }) body below refl
      ∙ ap (λ b. if b then body else below) (selects_any inst)

body_of-if :
    (device : Bool) (s : Decode) (b : Bool) (o p : Op)
    → body_of device s (if b then o else p) ≡ (if b then body_of device s o else body_of device s p)
body_of-if device s true o p = refl
body_of-if device s false o p = refl

-- The table runs, for every instruction word, the body of the instruction that the word's opcode
-- and funct3 (for ebreak the whole word) name, and the body for invalid words on every other word.
pub dispatch_lem :
    (device : Bool) (s : Decode)
    → s.inst < 2 ^ 32
    → dispatch device s ≡ body_of device s (op_of s.inst)
unfolding dispatch op_of
dispatch_lem device s word =
    simp
      (
        auipc_line s.inst word,
        lbu_line s.inst word,
        sb_line s.inst word,
        ebreak_line s.inst word,
        inv_line s.inst word,
        body_of-if,
      )
      (unfold body_of in refl)
