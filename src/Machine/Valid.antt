-- ===== src/Machine/Valid.antt =====
-- The well-formed states: every byte of the guest's memory and of the devices' memory is a byte, and
-- the processor has a property `C`. The predicate is on those parts of the state alone, so an
-- assignment to another global keeps it as it stands.
use riscv32_cpu.Base.{ℕ, ◌^◌, ◌<◌, ◌≡◌}
use riscv32_cpu.Machine.{Bytes, Cpu, Machine}

-- A value that fits `uint32_t`.
abbrev pub IsWord : ℕ → Type 0
IsWord v = v < 2 ^ 32

pub record WellFormed (C : Cpu → Type 0) (cpu : Cpu) (pmem io_space : Bytes) : Type 0 where
  pub cpu_part : C cpu
  pub pmem_bytes : (j : ℕ) → pmem j < 256
  pub io_bytes : (j : ℕ) → io_space j < 256

abbrev pub IsWell : (Cpu → Type 0) → Machine → Type 0
IsWell C s = WellFormed C s.cpu s.pmem s.io.io_space

-- Every register holds a word, and so does the program counter.
pub record HasWords (cpu : Cpu) : Type 0 where
  pub gpr : (i : ℕ) → IsWord (cpu.gpr i)
  pub pc : IsWord cpu.pc

abbrev pub IsValid : Machine → Type 0
IsValid = IsWell HasWords

-- Between two instructions the zero register is zero as well.
pub record IsRested (cpu : Cpu) : Type 0 where
  pub words : HasWords cpu
  pub zero_register : cpu.gpr 0 ≡ 0

abbrev pub IsReady : Machine → Type 0
IsReady = IsWell IsRested

pub IsReady-IsValid : (s : Machine) → IsReady s → IsValid s
IsReady-IsValid s h = record {
  cpu_part = h.cpu_part.words;
  pmem_bytes = h.pmem_bytes;
  io_bytes = h.io_bytes;
}
