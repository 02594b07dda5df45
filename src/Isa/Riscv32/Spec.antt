-- ===== src/Isa/Riscv32/Spec.antt =====
-- The instructions of the table as the ISA manual describes them: their encoding, and their effect.
use riscv32_cpu.Base.{ℕ, ◌+◌, ◌-◌, ◌*◌, ◌^◌, ◌%◌, ◌<◌, ◌≡◌, ltb, ◌==◌, if◌then◌else◌}
use riscv32_cpu.Host.{load}
use riscv32_cpu.Machine.{update, RunState, Machine}
use riscv32_cpu.Memory.Range.{mbase}
use riscv32_cpu.Memory.Paddr.Access.{Covers}
use riscv32_cpu.Isa.Riscv32.Encode.{encode_i, encode_s, encode_u}

pub data Inst : Type 0 where
  auipc : (imm rd : ℕ) → Inst
  lbu : (imm rs1 rd : ℕ) → Inst
  sb : (imm rs2 rs1 : ℕ) → Inst
  ebreak : Inst

unfoldable pub encode : Inst → ℕ
encode (auipc imm rd) = encode_u imm rd 0x17
encode (lbu imm rs1 rd) = encode_i imm rs1 4 rd 0x03
encode (sb imm rs2 rs1) = encode_s imm rs2 rs1 0 0x23
encode ebreak = encode_i 1 0 0 0 0x73

-- The fields fit their places in the word.
abbrev pub IsInst : Inst → Type 0
IsInst (auipc imm rd) = (imm < 2 ^ 20) × (rd < 32)
IsInst (lbu imm rs1 rd) = (imm < 2 ^ 12) × (rs1 < 32) × (rd < 32)
IsInst (sb imm rs2 rs1) = (imm < 2 ^ 12) × (rs2 < 32) × (rs1 < 32)
IsInst ebreak = Unit

-- A base plus a signed 12-bit offset, in 32 bits.
abbrev pub effective : ℕ → ℕ → ℕ
effective base imm = (base + (if ltb imm (2 ^ 11) then imm else imm + 2 ^ 32 - 2 ^ 12)) % 2 ^ 32

-- The byte that a load or store reaches lies in the memory.
abbrev pub Reaches : Inst → Machine → Type 0
Reaches (lbu imm rs1 rd) s = Covers (effective (s.cpu.gpr rs1) imm) 1
Reaches (sb imm rs2 rs1) s = Covers (effective (s.cpu.gpr rs1) imm) 1
Reaches _ s = Unit

-- A write to a register; the register 0 reads as zero.
abbrev pub set_register : (ℕ → ℕ) → ℕ → ℕ → ℕ → ℕ
set_register gpr rd v j = if j == 0 then 0 else (if j == rd then v else gpr j)

-- The effect of an instruction, but for the program counter.
unfoldable pub effect : Inst → Machine → Machine
effect (auipc imm rd) s = record s {
  cpu = record (s.cpu) { gpr = set_register s.cpu.gpr rd ((s.cpu.pc + imm * 2 ^ 12) % 2 ^ 32) };
}
effect (lbu imm rs1 rd) s = record s {
  cpu = record (s.cpu) {
    gpr = set_register s.cpu.gpr rd (s.pmem (effective (s.cpu.gpr rs1) imm - mbase));
  };
}
effect (sb imm rs2 rs1) s = record s {
  pmem = update s.pmem (effective (s.cpu.gpr rs1) imm - mbase) (s.cpu.gpr rs2 % 256);
}
effect ebreak s = record s {
  nemu_state = record { state = RunState.end; halt_pc = s.cpu.pc; halt_ret = s.cpu.gpr 10 };
}

-- The word at the program counter is the instruction.
pub record Fetches (i : Inst) (s : Machine) : Type 0 where
  pub inside : Covers s.cpu.pc 4
  pub word : load s.pmem (s.cpu.pc - mbase) 4 ≡ encode i
  pub fields : IsInst i
  pub reaches : Reaches i s
  pub zero_register : s.cpu.gpr 0 ≡ 0
