-- ===== src/Isa/Riscv32/Valid.antt =====
-- One instruction keeps the state well-formed, and leaves the zero register at zero.
use riscv32_cpu.Base.{ℕ, ◌≡◌, refl, Bool, arith, ltb}
use riscv32_cpu.Fault.{Result, ok, fault}
use riscv32_cpu.Machine.{RunState, update, Machine, M, pure, bind_result, ◌>>=◌, ◌>>◌}
use riscv32_cpu.State.Gives.{
  Gives, Any, Holds, Gives-bind, Gives-bind_get, Gives-bind_any, Gives-put, Gives-pure, Gives-if,
  Gives-lift, Gives-assert, Gives-returned, gives_rules,
}
use riscv32_cpu.Machine.Valid.{IsValid, IsReady, IsReady-IsValid, IsWord}
use riscv32_cpu.Memory.Paddr.Valid.{vaddr_read-Gives, vaddr_write-Gives, inst_fetch-Gives}
use riscv32_cpu.Isa.Hostcall.{set_nemu_state, invalid_inst, nemutrap}
use riscv32_cpu.Isa.Instpat.{Decode, instpat}
use riscv32_cpu.Isa.Riscv32.{
  gpr, set_gpr, imm_i, imm_u, imm_s, InstType, type_i, type_u, type_s, type_n, Operands,
  decode_operand, auipc, lbu, sb, ebreak, inv, instpat_match, dispatch, decode_exec, isa_exec_once,
}
use riscv32_cpu.Isa.Riscv32.Operand.{decode_operand-type_i, decode_operand-type_s}
use Prim.Native.String.{String}

set_gpr-Gives : (idx v : ℕ) → IsWord v → Gives IsValid (set_gpr idx v) Any
unfolding set_gpr
set_gpr-Gives idx v word = Gives-bind_any _ _ (Gives-assert (ltb idx 32)) λ _.
    Gives-bind_get _ λ s h. Gives-put _ (record {
      cpu_part = record {
        gpr = λ i. unfold update in ground (arith, h.cpu_part.gpr i);
        pc = h.cpu_part.pc;
      };
      pmem_bytes = h.pmem_bytes;
      io_bytes = h.io_bytes;
    })

gpr-Gives : (idx : ℕ) → Gives IsValid (gpr idx) IsWord
unfolding gpr
gpr-Gives idx =
    Gives-bind_any _ _ (Gives-assert (ltb idx 32))
      λ _. Gives-bind_get _ λ s h. Gives-pure IsWord _ (h.cpu_part.gpr idx)

abbrev IsOperands : Operands → Type 0
IsOperands o = IsWord o.src1 × IsWord o.src2 × IsWord o.imm

decode_operand-Gives : (i : ℕ) (type : InstType) → Gives IsValid (decode_operand i type) IsOperands
decode_operand-Gives i type_i = record {
  at = λ s h.
      rw (decode_operand-type_i i s)
        (h, (h.cpu_part.gpr _, omega arith, unfold imm_i in omega arith));
}
decode_operand-Gives i type_s = record {
  at = λ s h.
      rw (decode_operand-type_s i s)
        (h, (h.cpu_part.gpr _, h.cpu_part.gpr _, unfold imm_s in omega arith));
}
decode_operand-Gives i type_u = unfold decode_operand imm_u in Gives-pure IsOperands _ (omega arith)
decode_operand-Gives i type_n = unfold decode_operand in Gives-pure IsOperands _ (omega arith)

set_nemu_state-Gives :
    (state : RunState) (pc ret : ℕ) → Gives IsValid (set_nemu_state state pc ret) Any
unfolding set_nemu_state
set_nemu_state-Gives state pc ret = search gives_rules

instpat-Gives :
    (inst : ℕ) (pattern : String) (body below : M (Unit {0}))
    → Gives IsValid body Any
    → Gives IsValid below Any
    → Gives IsValid (instpat inst pattern body below) Any
unfolding instpat
instpat-Gives inst pattern body below hb hl =
    Gives-bind_any _ _ (Gives-lift Any _ (λ k e. tt)) (λ k. Gives-if _ body below hb hl)

module _ (device : Bool) (s : Decode) where
  instpat_match-Gives :
      (type : InstType) (body : Operands → M (Unit {0}))
      → ((o : Operands) → IsOperands o → Gives IsValid (body o) Any)
      → Gives IsValid (instpat_match device s type body) Any
  unfolding instpat_match
  instpat_match-Gives type body keeps = Gives-bind _ _ (decode_operand-Gives s.inst type) keeps

  auipc-Gives : (o : Operands) → IsOperands o → Gives IsValid (auipc device s o) Any
  unfolding auipc
  auipc-Gives o words = set_gpr-Gives o.rd _ (omega arith)

  lbu-Gives : (o : Operands) → IsOperands o → Gives IsValid (lbu device s o) Any
  unfolding lbu
  lbu-Gives o words = Gives-bind _ _ (vaddr_read-Gives device _ 1) (set_gpr-Gives o.rd)

  sb-Gives : (o : Operands) → IsOperands o → Gives IsValid (sb device s o) Any
  unfolding sb
  sb-Gives o words = vaddr_write-Gives device _ 1 o.src2

  ebreak-Gives : (o : Operands) → IsOperands o → Gives IsValid (ebreak device s o) Any
  unfolding ebreak
  ebreak-Gives o words =
      Gives-bind _ _ (gpr-Gives 10) (λ code _. unfold nemutrap in set_nemu_state-Gives _ s.pc code)

  inv-Gives : (o : Operands) → IsOperands o → Gives IsValid (inv device s o) Any
  unfolding inv invalid_inst
  inv-Gives o words = Gives-bind _ _ (inst_fetch-Gives device s.pc 4) λ first _.
      Gives-bind _ _ (inst_fetch-Gives device first.1 4) λ second _. set_nemu_state-Gives _ s.pc _

  dispatch-Gives : Gives IsValid (dispatch device s) Any
  unfolding dispatch
  dispatch-Gives =
      search
        (
          gives_rules, instpat-Gives, instpat_match-Gives, auipc-Gives, lbu-Gives, sb-Gives,
          ebreak-Gives, inv-Gives,
        )
        depth 12

decode_exec-Gives :
    (device : Bool) (s : Decode)
    → IsWord s.snpc
    → Gives IsValid (decode_exec device s) (λ d. IsWord d.dnpc)
unfolding decode_exec
decode_exec-Gives device s word =
    Gives-bind_any _ _ (dispatch-Gives device _)
      λ _. Gives-bind_any _ _ (set_gpr-Gives 0 0 (omega arith)) λ _. Gives-pure _ _ word

-- An instruction that returns leaves a well-formed state and a word as the next program counter.
pub isa_exec_once-Gives :
    (device : Bool) (s : Decode) → Gives IsValid (isa_exec_once device s) (λ d. IsWord d.dnpc)
unfolding isa_exec_once
isa_exec_once-Gives device s =
    Gives-bind _ _ (inst_fetch-Gives device s.snpc 4)
      λ fetched words. decode_exec-Gives device _ words.1

-- After a bind every return is one of the continuation.
Holds-bind_last :
    {A B : Type 0} (P : Machine → Type 0) (m : M A) (k : A → M B)
    → ((a : A) (t : Machine) → Holds P Any (k a t))
    → (s : Machine) → Holds P Any ((m >>= k) s)
unfolding ◌>>=◌
Holds-bind_last P m k last s = go (m s)
  where
    go : (r : Result _) → Holds P Any (bind_result r k)
    go (ok (a, t)) = last a t
    go (fault f) = tt

abbrev ZeroAtZero : Machine → Type 0
ZeroAtZero s = s.cpu.gpr 0 ≡ 0

set_gpr-zero : (d : Decode) (t : Machine) → Holds ZeroAtZero Any ((set_gpr 0 0 >> pure d) t)
unfolding set_gpr update ◌>>=◌
set_gpr-zero d t = (refl, tt)

-- The last assignment of decode_exec resets the zero register, whatever the instruction wrote.
isa_exec_once-zero :
    (device : Bool) (d : Decode) (s : Machine) → Holds ZeroAtZero Any (isa_exec_once device d s)
unfolding isa_exec_once decode_exec
isa_exec_once-zero device d =
    Holds-bind_last ZeroAtZero _ _ λ fetched. Holds-bind_last ZeroAtZero _ _ λ _ t. set_gpr-zero _ t

Holds-IsReady :
    {A : Type 0} (Q : A → Type 0) (r : Result (A × Machine))
    → Holds IsValid Q r
    → Holds ZeroAtZero Any r
    → Holds IsReady Q r
Holds-IsReady Q (ok (a, s)) h k = (
  record {
    cpu_part = record { words = h.0.cpu_part; zero_register = k.0 };
    pmem_bytes = h.0.pmem_bytes;
    io_bytes = h.0.io_bytes;
  },
  h.1,
)
Holds-IsReady Q (fault f) h k = tt

-- An instruction that returns leaves a state that the next one can start from.
pub isa_exec_once-Gives-IsReady :
    (device : Bool) (d : Decode) → Gives IsReady (isa_exec_once device d) (λ e. IsWord e.dnpc)
isa_exec_once-Gives-IsReady device d = record {
  at = λ s h.
      Holds-IsReady _ (isa_exec_once device d s)
        ((isa_exec_once-Gives device d).at s (IsReady-IsValid s h)) (isa_exec_once-zero device d s);
}

-- Let the state be as it is between two instructions: words in the registers, the zero register zero,
-- bytes in the memories. Whenever one instruction returns, whatever the word it fetched, that holds
-- again, and the next program counter is a word.
pub isa_exec_once-IsReady :
    (device : Bool) (d e : Decode) (s t : Machine)
    → IsReady s
    → isa_exec_once device d s ≡ ok (e, t)
    → IsReady t × IsWord e.dnpc
isa_exec_once-IsReady device d e s t h run =
    Gives-returned (isa_exec_once-Gives-IsReady device d) h run
