-- ===== src/Nes/Cpu/Cycles.antt =====
-- The cycles of the instructions, and the end of the loop of cpu_run.
use riscv32_cpu.Base.{
  ℕ, zero, suc, ◌-◌, ◌/◌, ◌≤◌, ◌<◌, ◌≡◌, refl, ap, ◌∙◌, arith, Bool, true, false, some, List, [],
  ◌∷◌, ◌&&◌, ltb, ◌==◌,
}
use riscv32_cpu.Fault.{ok}
use riscv32_cpu.State.{pure, get, put, bind_result, ◌>>=◌}
use riscv32_cpu.State.Total.{Returns, Total, Total-bind, Total-value, Returns-ok}
use riscv32_cpu.Nes.{Nes}
use riscv32_cpu.Nes.Cpu.Table.{cpu_op_table, find_op}
use riscv32_cpu.Nes.Cpu.Table.Item.{Entry}
use riscv32_cpu.Nes.Cpu.Run.{cpu_op, fetch, spend, cpu_step, cpu_loop, cpu_run}
use riscv32_cpu.Nes.Valid.{IsNes}
use riscv32_cpu.Nes.Valid.Cpu.{cpu_address-Total}
use riscv32_cpu.Nes.Valid.Run.{fetch-Total}
use riscv32_cpu.Nes.Valid.Handlers.{cpu_op_handler-Total}

-- The next rounds, that many from the state, all read an opcode that the tables define.
pub data FetchesDefined : ℕ → Nes → Type 0 where
  done : {s : Nes} → FetchesDefined 0 s
  round :
      {n op_code cycles : ℕ} {e : Entry} {s u t : Nes}
      → fetch s ≡ ok (op_code, u)
      → find_op cpu_op_table op_code ≡ some e
      → cpu_step s ≡ ok (cycles, t)
      → FetchesDefined n t
      → FetchesDefined (suc n) s

unfoldable all_cost : List Entry → Bool
all_cost [] = true
all_cost (e ∷ l) = ltb 0 e.cycles && all_cost l

table-cost : all_cost cpu_op_table ≡ true
unfolding all_cost
table-cost = refl

find_op-cost :
    (l : List Entry) (op_code : ℕ) (e : Entry)
    → all_cost l ≡ true
    → find_op l op_code ≡ some e
    → 0 < e.cycles
unfolding all_cost find_op
find_op-cost [] op_code e cost found = ground arith
find_op-cost (d ∷ l) op_code e cost found = let ih = find_op-cost l op_code e in ground arith

cpu_op-paid : (e : Entry) → 0 < e.cycles → Total IsNes (cpu_op (some e)) (λ cycles. 0 < cycles)
unfolding cpu_op
cpu_op-paid e cost =
    Total-bind _ _ (cpu_address-Total e.mode)
      λ _ _. Total-bind _ _ (cpu_op_handler-Total e.handler) λ _ _. Total-value e.cycles cost

spend-paid : (cycles : ℕ) → 0 < cycles → Total IsNes (spend cycles) (λ spent. 0 < spent)
unfolding spend ◌>>=◌ pure put get
spend-paid cycles cost = record { at = λ s w. (w, ground arith) }

-- A round that reads a defined opcode takes a cycle or more.
step-paid :
    (op_code : ℕ) (e : Entry) (s u : Nes)
    → IsNes u
    → fetch s ≡ ok (op_code, u)
    → find_op cpu_op_table op_code ≡ some e
    → Returns IsNes (λ spent. 0 < spent) (cpu_step s)
unfolding cpu_step ◌>>=◌
step-paid op_code e s u w fetched found =
    let cost : 0 < e.cycles = find_op-cost cpu_op_table op_code e table-cost found in
    let rest : Total IsNes (cpu_op (some e) >>= spend) (λ spent. 0 < spent) =
      Total-bind _ _ (cpu_op-paid e cost) spend-paid in
    rw fetched (rw found (rest.at u w))

fetched-IsNes : (op_code : ℕ) (s u : Nes) → IsNes s → fetch s ≡ ok (op_code, u) → IsNes u
fetched-IsNes op_code s u w fetched =
    (Returns-ok IsNes (λ a. Unit) (fetch s) op_code u fetched (fetch-Total.at s w)).0

cpu_loop-ends :
    (fuel cycles : ℕ) (s : Nes)
    → IsNes s
    → cycles ≤ fuel
    → FetchesDefined fuel s
    → (t : Nes) × (cpu_loop fuel cycles s ≡ ok (true, t)) × IsNes t
unfolding cpu_loop pure ◌>>=◌
cpu_loop-ends zero cycles s w enough FetchesDefined.done =
    let none_left : (cycles == 0) ≡ true = ground arith in (s, rw none_left refl, w)
cpu_loop-ends (suc fuel) zero s w enough rounds = (s, refl, w)
cpu_loop-ends (suc fuel) (suc cycles) s w enough
      (FetchesDefined.round {cycles = spent} {u = u} {t = t} fetched found stepped later) =
    let paid : IsNes t × (0 < spent) =
      Returns-ok IsNes (λ a. 0 < a) (cpu_step s) spent t stepped
        (step-paid _ _ s u (fetched-IsNes _ s u w fetched) fetched found) in
    let some_left : (suc cycles == 0) ≡ false = ground arith in
    let first : cpu_loop (suc fuel) (suc cycles) s
        ≡ bind_result (cpu_step s) (λ c. cpu_loop fuel (suc cycles - c)) =
      rw some_left in
    let same : bind_result (cpu_step s) (λ c. cpu_loop fuel (suc cycles - c))
        ≡ cpu_loop fuel (suc cycles - spent) t =
      ap (λ r. bind_result r (λ c. cpu_loop fuel (suc cycles - c))) stepped in
    let rest = cpu_loop-ends fuel (suc cycles - spent) t paid.0 (omega arith) later in
    (rest.0, first ∙ same ∙ rest.1, rest.2)

-- cpu_run ends: from a well-formed state with a mapper other than 3, where the next `fuel` rounds all
-- read an opcode of the tables, fuel for a third of the cycles asked is enough for the loop to return
-- with no cycles left, in a well-formed state.
pub cpu_run-ends :
    (fuel cycles : ℕ) (s : Nes)
    → IsNes s
    → cycles / 3 ≤ fuel
    → FetchesDefined fuel s
    → (t : Nes) × (cpu_run fuel cycles s ≡ ok (true, t)) × IsNes t
unfolding cpu_run
cpu_run-ends fuel cycles s w enough rounds = cpu_loop-ends fuel (cycles / 3) s w enough rounds
