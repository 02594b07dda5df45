-- ===== src/Exec/Untimed.antt =====
-- Without devices an execution reads neither the host's clock nor the emulator's timer: it commutes
-- with the function that forgets them.
use riscv32_cpu.Base.{ℕ, ◌≡◌, ◌≢◌, refl, ◌∙◌, ap, Bool, true, false, ltb, if◌then◌else◌}
use riscv32_cpu.Fault.{Fault, Result, ok, fault}
use riscv32_cpu.Host.{host_write}
use riscv32_cpu.Machine.{
  RunState, stop, end, abort, Bytes, Machine, M, pure, stop_with, lift, put, assert, bind_result,
  ◌>>=◌, ◌>>◌,
}
use riscv32_cpu.State.Gives.{
  Gives, Any, Gives-bind_get, Gives-bind_any, Gives-pure-Any, Gives-put, Gives-stop_with,
  Gives-assert, Gives-lift, gives_rules,
}
use riscv32_cpu.Memory.Range.{msize, guest_to_host}
use riscv32_cpu.Memory.Paddr.{
  pmem_read, pmem_write, out_of_bound, paddr_read, paddr_write, vaddr_ifetch, vaddr_read,
  vaddr_write, inst_fetch,
}
use riscv32_cpu.Isa.Hostcall.{set_nemu_state, invalid_inst, nemutrap}
use riscv32_cpu.Isa.Instpat.{Decode, instpat}
use riscv32_cpu.Isa.Riscv32.{
  gpr, set_gpr, InstType, type_i, type_u, type_s, type_n, Operands, decode_operand, auipc, lbu, sb,
  ebreak, inv, instpat_match, dispatch, decode_exec, isa_exec_once,
}
use riscv32_cpu.Exec.{Config, set_pc, count_inst, exec_once, exec_round}
use Prim.Native.String.{String}

-- The state without the clock and the timer.
abbrev pub untimed : Machine → Machine
untimed s = record s { clock = record { readings = λ i. 0; calls = 0; boot_time = 0 }; g_timer = 0 }

abbrev pub map_state : {A : Type 0} → Result (A × Machine) → Result (A × Machine)
map_state (ok (a, s)) = ok (a, untimed s)
map_state (fault f) = fault f

abbrev pub NotStopped : Machine → Type 0
NotStopped s = s.nemu_state.state ≢ stop

-- The call commutes with forgetting the time, and does not enter NEMU_STOP.
pub record Commutes {A : Type 0} (m : M A) : Type 0 where
  pub at : (s : Machine) → m (untimed s) ≡ map_state (m s)
  pub keeps : Gives NotStopped m Any

Commutes-result :
    {A B : Type 0} (r : Result (A × Machine)) (k : A → M B)
    → ((a : A) → Commutes (k a))
    → bind_result (map_state r) k ≡ map_state (bind_result r k)
Commutes-result (ok (a, s)) k h = (h a).at s
Commutes-result (fault f) k h = refl

pub Commutes-bind :
    {A B : Type 0} (m : M A) (k : A → M B)
    → Commutes m
    → ((a : A) → Commutes (k a))
    → Commutes (m >>= k)
unfolding ◌>>=◌
Commutes-bind m k first rest = record {
  at = λ s. ap (λ r. bind_result r k) (first.at s) ∙ Commutes-result (m s) k rest;
  keeps = Gives-bind_any m k first.keeps (λ a. (rest a).keeps);
}

Commutes-pure : {A : Type 0} (a : A) → Commutes (pure a)
unfolding pure
Commutes-pure a = record { at = λ s. refl; keeps = unfold pure in Gives-pure-Any a }

Commutes-stop_with : {A : Type 0} (f : Fault) → Commutes (stop_with {A = A} f)
unfolding stop_with
Commutes-stop_with f = record { at = λ s. refl; keeps = Gives-stop_with Any f }

Commutes-assert : (b : Bool) → Commutes (assert b)
unfolding assert
Commutes-assert true = record { at = λ s. refl; keeps = Gives-assert true }
Commutes-assert false = record { at = λ s. refl; keeps = Gives-assert false }

Commutes-lift : {A : Type 0} (r : Result A) → Commutes (lift r)
unfolding lift
Commutes-lift (ok a) = record { at = λ s. refl; keeps = Gives-lift Any (ok a) (λ _ _. tt) }
Commutes-lift (fault f) = record { at = λ s. refl; keeps = Gives-lift Any (fault f) (λ _ _. tt) }

Commutes-if :
    {A : Type 0} (b : Bool) (m k : M A) → Commutes m → Commutes k → Commutes (if b then m else k)
Commutes-if true m k hm hk = hm
Commutes-if false m k hm hk = hk

ruleset commutes_rules =
    (Commutes-bind, Commutes-pure, Commutes-stop_with, Commutes-assert, Commutes-lift, Commutes-if)

-- The registers.
gpr-Commutes : (idx : ℕ) → Commutes (gpr idx)
unfolding gpr ◌>>=◌
gpr-Commutes idx =
    Commutes-bind _ _ (Commutes-assert (ltb idx 32))
      λ _. record { at = λ s. refl; keeps = search gives_rules }

set_gpr-Commutes : (idx v : ℕ) → Commutes (set_gpr idx v)
unfolding set_gpr ◌>>=◌
set_gpr-Commutes idx v =
    Commutes-bind _ _ (Commutes-assert (ltb idx 32))
      λ _. record { at = λ s. refl; keeps = search gives_rules }

decode_operand-Commutes : (i : ℕ) (type : InstType) → Commutes (decode_operand i type)
unfolding decode_operand
decode_operand-Commutes i type_i = search (commutes_rules, gpr-Commutes)
decode_operand-Commutes i type_s = search (commutes_rules, gpr-Commutes)
decode_operand-Commutes i type_u = Commutes-pure _
decode_operand-Commutes i type_n = Commutes-pure _

-- The memory.
keeps_lift : {A : Type 0} (r : Result A) → Gives NotStopped (lift r) Any
keeps_lift r = Gives-lift Any r (λ a e. tt)

pmem_read-keeps : (addr len : ℕ) → Gives NotStopped (pmem_read addr len) Any
unfolding pmem_read
pmem_read-keeps addr len = search (gives_rules, keeps_lift)

pmem_write-keeps : (addr len v : ℕ) → Gives NotStopped (pmem_write addr len v) Any
unfolding pmem_write
pmem_write-keeps addr len v = search (gives_rules, keeps_lift)

pmem_read-Commutes : (addr len : ℕ) → Commutes (pmem_read addr len)
unfolding pmem_read ◌>>=◌
pmem_read-Commutes addr len = record {
  at = λ s. (Commutes-lift _).at s;
  keeps = pmem_read-keeps addr len;
}

pmem_write-Commutes : (addr len v : ℕ) → Commutes (pmem_write addr len v)
unfolding pmem_write lift ◌>>=◌
pmem_write-Commutes addr len v = record {
  at = λ s. by_result s (host_write s.pmem msize (guest_to_host addr) len v);
  keeps = pmem_write-keeps addr len v;
}
  where
    by_result :
        (s : Machine) (r : Result Bytes)
        → (lift r >>= λ bytes. put (record (untimed s) { pmem = bytes })) (untimed s)
          ≡ map_state ((lift r >>= λ bytes. put (record s { pmem = bytes })) s)
    by_result s (ok bytes) = refl
    by_result s (fault f) = refl

paddr_read-Commutes : (addr len : ℕ) → Commutes (paddr_read false addr len)
unfolding paddr_read out_of_bound
paddr_read-Commutes addr len = search (commutes_rules, pmem_read-Commutes)

paddr_write-Commutes : (addr len v : ℕ) → Commutes (paddr_write false addr len v)
unfolding paddr_write out_of_bound
paddr_write-Commutes addr len v = search (commutes_rules, pmem_write-Commutes)

vaddr_read-Commutes : (addr len : ℕ) → Commutes (vaddr_read false addr len)
unfolding vaddr_read
vaddr_read-Commutes = paddr_read-Commutes

vaddr_write-Commutes : (addr len v : ℕ) → Commutes (vaddr_write false addr len v)
unfolding vaddr_write
vaddr_write-Commutes = paddr_write-Commutes

inst_fetch-Commutes : (pc len : ℕ) → Commutes (inst_fetch false pc len)
unfolding inst_fetch vaddr_ifetch
inst_fetch-Commutes pc len = search (commutes_rules, paddr_read-Commutes)

-- The instructions.
set_nemu_state-keeps :
    (state : RunState) (pc ret : ℕ)
    → state ≢ stop
    → Gives NotStopped (set_nemu_state state pc ret) Any
unfolding set_nemu_state
set_nemu_state-keeps state pc ret other = Gives-bind_get _ λ s h. Gives-put _ other

set_nemu_state-Commutes :
    (state : RunState) (pc ret : ℕ) → state ≢ stop → Commutes (set_nemu_state state pc ret)
unfolding set_nemu_state ◌>>=◌
set_nemu_state-Commutes state pc ret other = record {
  at = λ s. refl;
  keeps = set_nemu_state-keeps state pc ret other;
}

end-Commutes : (pc ret : ℕ) → Commutes (set_nemu_state end pc ret)
end-Commutes pc ret = set_nemu_state-Commutes end pc ret (λ e. cc)

abort-Commutes : (pc ret : ℕ) → Commutes (set_nemu_state abort pc ret)
abort-Commutes pc ret = set_nemu_state-Commutes abort pc ret (λ e. cc)

instpat-Commutes :
    {A : Type 0} (inst : ℕ) (pattern : String) (body below : M A)
    → Commutes body
    → Commutes below
    → Commutes (instpat inst pattern body below)
unfolding instpat
instpat-Commutes inst pattern body below hb hl = search commutes_rules

module _ (s : Decode) where
  instpat_match-Commutes :
      (type : InstType) (body : Operands → M (Unit {0}))
      → ((o : Operands) → Commutes (body o))
      → Commutes (instpat_match false s type body)
  unfolding instpat_match
  instpat_match-Commutes type body h = Commutes-bind _ _ (decode_operand-Commutes s.inst type) h

  auipc-Commutes : (o : Operands) → Commutes (auipc false s o)
  unfolding auipc
  auipc-Commutes o = set_gpr-Commutes o.rd _

  lbu-Commutes : (o : Operands) → Commutes (lbu false s o)
  unfolding lbu
  lbu-Commutes o = search (commutes_rules, vaddr_read-Commutes, set_gpr-Commutes)

  sb-Commutes : (o : Operands) → Commutes (sb false s o)
  unfolding sb
  sb-Commutes o = vaddr_write-Commutes _ 1 o.src2

  ebreak-Commutes : (o : Operands) → Commutes (ebreak false s o)
  unfolding ebreak nemutrap
  ebreak-Commutes o = search (commutes_rules, gpr-Commutes, end-Commutes)

  inv-Commutes : (o : Operands) → Commutes (inv false s o)
  unfolding inv invalid_inst
  inv-Commutes o = search (commutes_rules, inst_fetch-Commutes, abort-Commutes)

  dispatch-Commutes : Commutes (dispatch false s)
  unfolding dispatch
  dispatch-Commutes =
      search
        (
          instpat-Commutes, instpat_match-Commutes, auipc-Commutes, lbu-Commutes, sb-Commutes,
          ebreak-Commutes, inv-Commutes, Commutes-pure,
        )
        depth 12

decode_exec-Commutes : (s : Decode) → Commutes (decode_exec false s)
unfolding decode_exec
decode_exec-Commutes s = search (commutes_rules, dispatch-Commutes, set_gpr-Commutes)

isa_exec_once-Commutes : (s : Decode) → Commutes (isa_exec_once false s)
unfolding isa_exec_once
isa_exec_once-Commutes s = search (commutes_rules, inst_fetch-Commutes, decode_exec-Commutes)

set_pc-Commutes : (pc : ℕ) → Commutes (set_pc pc)
unfolding set_pc ◌>>=◌
set_pc-Commutes pc = record { at = λ s. refl; keeps = search gives_rules }

count_inst-Commutes : Commutes count_inst
unfolding count_inst ◌>>=◌
count_inst-Commutes = record { at = λ s. refl; keeps = search gives_rules }

module _ (c : Config) (no_device : c.device ≡ false) where
  exec_once-Commutes : (pc : ℕ) → Commutes (exec_once c pc)
  unfolding exec_once
  exec_once-Commutes pc =
      rw no_device (search (commutes_rules, isa_exec_once-Commutes, set_pc-Commutes))

  from_pc : (pc : ℕ) → Commutes (exec_once c pc >> count_inst)
  from_pc pc = Commutes-bind _ _ (exec_once-Commutes pc) (λ _. count_inst-Commutes)

  exec_round-keeps : Gives NotStopped (exec_round c) Any
  unfolding exec_round
  exec_round-keeps = Gives-bind_get _ (λ s h. (from_pc s.cpu.pc).keeps)

  pub exec_round-Commutes : Commutes (exec_round c)
  unfolding exec_round ◌>>=◌
  exec_round-Commutes = record { at = λ s. (from_pc s.cpu.pc).at s; keeps = exec_round-keeps }
