-- ===== src/Isa/Loongarch32r/Boot.antt =====
-- The built-in image of LoongArch32.
use riscv32_cpu.Base.{◌≡◌, refl, false}
use riscv32_cpu.Fault.{ok}
use riscv32_cpu.Host.{load, store, host_read, host_write}
use riscv32_cpu.Machine.{update, end, Machine, pure, lift, assert, ◌>>=◌, ◌>>◌}
use riscv32_cpu.Memory.Range.{in_pmem, guest_to_host}
use riscv32_cpu.Memory.Paddr.{
  pmem_read, pmem_write, paddr_read, paddr_write, vaddr_ifetch, vaddr_read, vaddr_write, inst_fetch,
}
use riscv32_cpu.Pattern.{pattern_decode, selects}
use riscv32_cpu.Isa.Hostcall.{set_nemu_state, nemutrap}
use riscv32_cpu.Isa.Instpat.{instpat}
use riscv32_cpu.Isa.Riscv32.{gpr, set_gpr}
use riscv32_cpu.Isa.Riscv32.Boot.{copy_words, restart}
use riscv32_cpu.Isa.Loongarch32r.{
  simm12, simm20, decode_operand, pcaddu12i, ld_w, st_w, break, instpat_match, dispatch,
  decode_exec, isa_exec_once, init_isa,
}
use riscv32_cpu.Exec.{set_pc}
use riscv32_cpu.Exec.Once.{one_instruction}

-- Whatever the memory and the registers held, init_isa and four instructions, each at the program
-- counter that the one before left, return with the guest at its good trap at 0x8000000c.
pub init_isa-four_rounds :
    (s : Machine)
    → (t : Machine) × ((init_isa
            >> one_instruction (isa_exec_once false)
            >> one_instruction (isa_exec_once false)
            >> one_instruction (isa_exec_once false)
            >> one_instruction (isa_exec_once false))
          s
        ≡ ok (tt, t))
      × (t.nemu_state ≡ record { state = end; halt_pc = 0x8000000c; halt_ret = 0 })
unfolding one_instruction isa_exec_once set_pc init_isa restart copy_words guest_to_host store load
    update inst_fetch vaddr_ifetch vaddr_read vaddr_write paddr_read paddr_write in_pmem pmem_read
    pmem_write host_read host_write decode_exec dispatch instpat pattern_decode selects
    instpat_match decode_operand simm12 simm20 gpr set_gpr pcaddu12i ld_w st_w break nemutrap
    set_nemu_state pure lift assert ◌>>=◌
init_isa-four_rounds s = (_, refl, refl)
