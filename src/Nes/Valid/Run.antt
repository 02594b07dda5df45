-- ===== src/Nes/Valid/Run.antt =====
-- The loop of the processor: a round returns from every well-formed state, and the loop ends where
-- each round meets an opcode of the tables.
use riscv32_cpu.Base.{ℕ, zero, suc, ◌-◌, ◌/◌, ◌≡◌, Bool, true, Option, none, some}
use riscv32_cpu.Fault.{ok}
use riscv32_cpu.State.Total.{
  Total, Total-get, Total-then, Total-pure, Total-put, Total-if, Total-returned,
}
use riscv32_cpu.Nes.{Nes}
use riscv32_cpu.Nes.Cpu.Table.{cpu_op_table, find_op}
use riscv32_cpu.Nes.Cpu.Table.Item.{Entry}
use riscv32_cpu.Nes.Cpu.Run.{
  cpu_op, fetch, spend, cpu_step, cpu_loop, cpu_run, cpu_reset, take_nmi, cpu_interrupt,
}
use riscv32_cpu.Nes.Cpu.{cpu_reset_interrupt_address}
use riscv32_cpu.Nes.Valid.{IsNes}
use riscv32_cpu.Nes.Valid.Memory.{memory_readb-Total, memory_readw-Total}
use riscv32_cpu.Nes.Valid.Cpu.{
  cpu_address-Total, advance_pc-Total, cpu_set_pc-Total, cpu_set_sp-Total, cpu_set_p-Total,
  cpu_modify_flag-Total, cpu_nmi_interrupt_address-Total, cpu_stack_pushb-Total,
  cpu_stack_pushw-Total,
}
use riscv32_cpu.Nes.Valid.Handlers.{cpu_op_handler-Total}

cpu_op-Total : (e : Option Entry) → Total IsNes (cpu_op e) (λ a. Unit)
unfolding cpu_op
cpu_op-Total none = Total-pure 0
cpu_op-Total (some e) =
    Total-then _ _ (cpu_address-Total e.mode)
      λ _. Total-then _ _ (cpu_op_handler-Total e.handler) (λ _. Total-pure e.cycles)

spend-Total : (cycles : ℕ) → Total IsNes (spend cycles) (λ a. Unit)
unfolding spend
spend-Total cycles = Total-get _ λ s w. Total-then _ _ (Total-put _ w) (λ _. Total-pure _)

pub fetch-Total : Total IsNes fetch (λ a. Unit)
unfolding fetch
fetch-Total =
    Total-get _ λ s w. Total-then _ _ (advance_pc-Total 1) (λ _. memory_readb-Total s.cpu.pc)

cpu_step-Total : Total IsNes cpu_step (λ a. Unit)
unfolding cpu_step
cpu_step-Total = Total-then _ _ fetch-Total λ op_code.
    Total-then _ _ (cpu_op-Total (find_op cpu_op_table op_code)) (λ cycles. spend-Total cycles)

cpu_loop-Total : (fuel cycles : ℕ) → Total IsNes (cpu_loop fuel cycles) (λ a. Unit)
unfolding cpu_loop
cpu_loop-Total zero cycles = Total-pure _
cpu_loop-Total (suc fuel) cycles =
    Total-if _ _ _ (Total-pure true)
      (Total-then _ _ cpu_step-Total (λ spent. cpu_loop-Total fuel (cycles - spent)))

cpu_reset-Total : Total IsNes cpu_reset (λ a. Unit)
unfolding cpu_reset cpu_reset_interrupt_address
cpu_reset-Total =
    search
      (
        Total-get, Total-then, memory_readw-Total, cpu_set_pc-Total, cpu_set_sp-Total,
        cpu_set_p-Total,
      )
      depth 12

take_nmi-Total : Total IsNes take_nmi (λ a. Unit)
unfolding take_nmi
take_nmi-Total =
    search
      (
        Total-get, Total-then, cpu_set_pc-Total, cpu_set_p-Total, cpu_modify_flag-Total,
        cpu_stack_pushw-Total, cpu_stack_pushb-Total, cpu_nmi_interrupt_address-Total,
      )
      depth 16

cpu_interrupt-Total : Total IsNes cpu_interrupt (λ a. Unit)
unfolding cpu_interrupt
cpu_interrupt-Total = Total-get _ λ s w. Total-if _ _ _ take_nmi-Total (Total-pure tt)

-- From every well-formed state with a mapper other than 3, whatever the memory holds at the program
-- counter, a round of cpu_run returns, and leaves the state well-formed: each register a value of its
-- C type, the indices of the picture unit in range, and each memory bytes.
pub cpu_step-safe :
    (s : Nes) → IsNes s → (cycles : ℕ) × (t : Nes) × (cpu_step s ≡ ok (cycles, t)) × IsNes t
cpu_step-safe s w = Total-returned cpu_step s cpu_step-Total w

-- cpu_interrupt, cpu_reset and cpu_run return from every well-formed state, and leave it well-formed.
pub cpu-lifecycle-safe :
    (fuel cycles : ℕ) (s : Nes)
    → IsNes s
    → ((u : Unit {0}) × (t : Nes) × (cpu_interrupt s ≡ ok (u, t)) × IsNes t)
      × ((u : Unit {0}) × (t : Nes) × (cpu_reset s ≡ ok (u, t)) × IsNes t)
      × ((b : Bool) × (t : Nes) × (cpu_run fuel cycles s ≡ ok (b, t)) × IsNes t)
unfolding cpu_run
cpu-lifecycle-safe fuel cycles s w = (
  Total-returned cpu_interrupt s cpu_interrupt-Total w,
  Total-returned cpu_reset s cpu_reset-Total w,
  Total-returned (cpu_run fuel cycles) s (cpu_loop-Total fuel (cycles / 3)) w,
)
