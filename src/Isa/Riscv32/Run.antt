-- ===== src/Isa/Riscv32/Run.antt =====
-- isa_exec_once has, on each instruction of the table, the effect that the manual gives it.
use riscv32_cpu.Base.{
  ℕ, ◌+◌, ◌-◌, ◌*◌, ◌%◌, ◌^◌, ◌<◌, ◌≡◌, refl, ap, ◌∙◌, fun_ext, Bool, arith, lt→ltb,
}
use riscv32_cpu.Fault.{ok}
use riscv32_cpu.Word.{u32, bits, sext}
use riscv32_cpu.Word.Fields.{bits_lem}
use riscv32_cpu.Host.{load, store}
use riscv32_cpu.Machine.{update, RunState, Machine, ◌>>=◌}
use riscv32_cpu.Memory.Range.{mbase}
use riscv32_cpu.Memory.Paddr.{vaddr_ifetch, vaddr_read, vaddr_write, inst_fetch}
use riscv32_cpu.Memory.Paddr.Access.{paddr_read_lem, paddr_write_lem}
use riscv32_cpu.Isa.Hostcall.{nemutrap}
use riscv32_cpu.Isa.Instpat.{Decode}
use riscv32_cpu.Isa.Riscv32
use riscv32_cpu.Isa.Riscv32.{
  gpr, set_gpr, imm_i, imm_u, imm_s, type_i, type_u, type_s, type_n, Operands, decode_operand,
  instpat_match, dispatch, decode_exec, isa_exec_once,
}
use riscv32_cpu.Isa.Riscv32.Dispatch.{Op, op_of, body_of, dispatch_lem}
use riscv32_cpu.Isa.Riscv32.Operand.{
  rd_lem, rs1_lem, rs2_lem, imm_u_lem, imm_s_lem, decode_operand-type_i, decode_operand-type_s,
}
use riscv32_cpu.Isa.Riscv32.Spec.{
  Inst, auipc, lbu, sb, ebreak, encode, IsInst, effective, Reaches, set_register, effect, Fetches,
}

encode-lt : (i : Inst) → IsInst i → encode i < 2 ^ 32
unfolding encode
encode-lt (auipc imm rd) h = omega arith
encode-lt (lbu imm rs1 rd) h = omega arith
encode-lt (sb imm rs2 rs1) h = omega arith
encode-lt ebreak h = omega arith

op : Inst → Op
op (auipc imm rd) = Op.auipc
op (lbu imm rs1 rd) = Op.lbu
op (sb imm rs2 rs1) = Op.sb
op ebreak = Op.ebreak

op_of-encode : (i : Inst) → IsInst i → op_of (encode i) ≡ op i
unfolding encode op_of op
op_of-encode (auipc imm rd) h = ground arith
op_of-encode (lbu imm rs1 rd) h = ground arith
op_of-encode (sb imm rs2 rs1) h = ground arith
op_of-encode ebreak h = refl

sext_offset : (base imm : ℕ) → imm < 2 ^ 12 → u32 (base + u32 (sext imm 12)) ≡ effective base imm
unfolding sext
sext_offset base imm h = ground arith

set_gpr_lem :
    (idx v : ℕ) (s : Machine)
    → idx < 32
    → set_gpr idx v s ≡ ok (tt, record s { cpu = record (s.cpu) { gpr = update s.cpu.gpr idx v } })
unfolding set_gpr ◌>>=◌
set_gpr_lem idx v s low = rw (lt→ltb idx 32 low)

-- What the body does before the zero register is reset.
body_effect : Inst → Machine → Machine
body_effect (auipc imm rd) s = record s {
  cpu = record (s.cpu) { gpr = update s.cpu.gpr rd ((s.cpu.pc + imm * 2 ^ 12) % 2 ^ 32) };
}
body_effect (lbu imm rs1 rd) s = record s {
  cpu = record (s.cpu) {
    gpr = update s.cpu.gpr rd (load s.pmem (effective (s.cpu.gpr rs1) imm - mbase) 1);
  };
}
body_effect (sb imm rs2 rs1) s = record s {
  pmem = store s.pmem (effective (s.cpu.gpr rs1) imm - mbase) 1 (s.cpu.gpr rs2);
}
body_effect ebreak s = effect ebreak s

module _ (device : Bool) (d : Decode) (s : Machine) (at : d.pc ≡ s.cpu.pc) where
  auipc_run :
      (imm rd : ℕ)
      → d.inst ≡ encode (auipc imm rd)
      → IsInst (auipc imm rd)
      → body_of device d Op.auipc s ≡ ok (tt, body_effect (auipc imm rd) s)
  unfolding body_of instpat_match ◌>>=◌ decode_operand Riscv32.auipc body_effect encode
  auipc_run imm rd e h =
      let i = encode (auipc imm rd) in
      let rd_is : bits i 11 7 ≡ rd = rd_lem i ∙ omega arith in
      let imm_is : imm_u i ≡ imm * 2 ^ 12 =
        imm_u_lem i (encode-lt (auipc imm rd) h) ∙ omega arith in
      rw (e, rd_is, imm_is, at) (set_gpr_lem rd (u32 (s.cpu.pc + imm * 2 ^ 12)) s h.1)

  lbu_run :
      (imm rs1 rd : ℕ)
      → d.inst ≡ encode (lbu imm rs1 rd)
      → IsInst (lbu imm rs1 rd)
      → Reaches (lbu imm rs1 rd) s
      → body_of device d Op.lbu s ≡ ok (tt, body_effect (lbu imm rs1 rd) s)
  unfolding body_of instpat_match ◌>>=◌ Riscv32.lbu body_effect vaddr_read encode
  lbu_run imm rs1 rd e h r =
      let i = encode (lbu imm rs1 rd) in
      let rd_is : bits i 11 7 ≡ rd = rd_lem i ∙ omega arith in
      let rs1_is : bits i 19 15 ≡ rs1 = rs1_lem i ∙ omega arith in
      let imm_is : imm_i i ≡ u32 (sext imm 12) =
        unfold imm_i in
        rw (bits_lem i 31 20 (omega arith)) (ap (λ t. u32 (sext t 12)) (omega arith)) in
      let address = sext_offset (s.cpu.gpr rs1) imm h.0 in
      rw
        (
          e,
          decode_operand-type_i i s,
          rd_is,
          rs1_is,
          imm_is,
          address,
          paddr_read_lem (effective (s.cpu.gpr rs1) imm) 1 refl r device s,
        )
        (set_gpr_lem rd (load s.pmem (effective (s.cpu.gpr rs1) imm - mbase) 1) s h.2)

  sb_run :
      (imm rs2 rs1 : ℕ)
      → d.inst ≡ encode (sb imm rs2 rs1)
      → IsInst (sb imm rs2 rs1)
      → Reaches (sb imm rs2 rs1) s
      → body_of device d Op.sb s ≡ ok (tt, body_effect (sb imm rs2 rs1) s)
  unfolding body_of instpat_match ◌>>=◌ Riscv32.sb body_effect vaddr_write encode
  sb_run imm rs2 rs1 e h r =
      let i = encode (sb imm rs2 rs1) in
      let rs1_is : bits i 19 15 ≡ rs1 = rs1_lem i ∙ omega arith in
      let rs2_is : bits i 24 20 ≡ rs2 = rs2_lem i ∙ omega arith in
      let imm_is : imm_s i ≡ u32 (sext imm 12) =
        imm_s_lem i ∙ ap (λ t. u32 (sext t 12)) (omega arith) in
      let address = sext_offset (s.cpu.gpr rs1) imm h.0 in
      rw (e, decode_operand-type_s i s, rs1_is, rs2_is, imm_is, address)
        (paddr_write_lem (effective (s.cpu.gpr rs1) imm) 1 refl r device (s.cpu.gpr rs2) s)

  ebreak_run : body_of device d Op.ebreak s ≡ ok (tt, body_effect ebreak s)
  unfolding body_of instpat_match ◌>>=◌ decode_operand Riscv32.ebreak body_effect effect nemutrap
      gpr
  ebreak_run = rw at refl

zero_lem : (g : ℕ → ℕ) → g 0 ≡ 0 → update g 0 0 ≡ g
unfolding update
zero_lem g z = fun_ext (λ j. ground arith)

-- Resetting the zero register turns the body's effect into the instruction's.
reset_lem :
    (i : Inst) (s : Machine)
    → s.cpu.gpr 0 ≡ 0
    → let t = body_effect i s in
      record t { cpu = record (t.cpu) { gpr = update t.cpu.gpr 0 0 } } ≡ effect i s
unfolding body_effect effect update load store
reset_lem (auipc imm rd) s z = refl
reset_lem (lbu imm rs1 rd) s z =
    ap (λ v. record s { cpu = record (s.cpu) { gpr = set_register s.cpu.gpr rd v } }) (omega arith)
reset_lem (sb imm rs2 rs1) s z =
    ap
      (λ g. record s {
        cpu = record (s.cpu) { gpr = g };
        pmem = update s.pmem (effective (s.cpu.gpr rs1) imm - mbase) (s.cpu.gpr rs2 % 256);
      })
      (zero_lem s.cpu.gpr z)
reset_lem ebreak s z =
    ap
      (λ g. record s {
        cpu = record (s.cpu) { gpr = g };
        nemu_state = record { state = RunState.end; halt_pc = s.cpu.pc; halt_ret = s.cpu.gpr 10 };
      })
      (zero_lem s.cpu.gpr z)

body_of-run :
    (device : Bool) (d : Decode) (s : Machine) (i : Inst)
    → d.pc ≡ s.cpu.pc
    → d.inst ≡ encode i
    → IsInst i
    → Reaches i s
    → body_of device d (op i) s ≡ ok (tt, body_effect i s)
unfolding op
body_of-run device d s (auipc imm rd) at e h r = auipc_run device d s at imm rd e h
body_of-run device d s (lbu imm rs1 rd) at e h r = lbu_run device d s at imm rs1 rd e h r
body_of-run device d s (sb imm rs2 rs1) at e h r = sb_run device d s at imm rs2 rs1 e h r
body_of-run device d s ebreak at e h r = ebreak_run device d s at

-- On a word of the memory that encodes an instruction, where the byte that lbu or sb accesses lies in
-- the memory and the zero register is zero, executing once has the effect of the instruction, and
-- returns the address after it as the next program counter.
pub isa_exec_once-encode :
    (device : Bool) (i : Inst) (s : Machine)
    → Fetches i s
    → isa_exec_once device (record { pc = s.cpu.pc; snpc = s.cpu.pc; dnpc = 0; inst = 0 }) s
      ≡ ok (
        record {
          pc = s.cpu.pc;
          snpc = u32 (s.cpu.pc + 4);
          dnpc = u32 (s.cpu.pc + 4);
          inst = encode i;
        },
        effect i s,
      )
unfolding isa_exec_once inst_fetch vaddr_ifetch decode_exec ◌>>=◌
isa_exec_once-encode device i s f =
    let d : Decode = record {
      pc = s.cpu.pc;
      snpc = u32 (s.cpu.pc + 4);
      dnpc = u32 (s.cpu.pc + 4);
      inst = encode i;
    } in
    let word = encode-lt i f.fields in
    let cut : u32 (encode i) ≡ encode i = omega arith in
    rw
      (
        paddr_read_lem s.cpu.pc 4 refl f.inside device s,
        f.word,
        cut,
        dispatch_lem device d word,
        op_of-encode i f.fields,
        body_of-run device d s i refl refl f.fields f.reaches,
        set_gpr_lem 0 0 (body_effect i s) (omega arith),
      )
      (ap (λ t. ok (d, t)) (reset_lem i s f.zero_register))
