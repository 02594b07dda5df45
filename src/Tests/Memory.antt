-- ===== src/Tests/Memory.antt =====
-- Runs of the accesses to the memory.
use riscv32_cpu.Base.{ℕ, ◌%◌, ◌^◌, ◌≡◌, refl, false, inl, arith}
use riscv32_cpu.Fault.{Fault, ok, fault}
use riscv32_cpu.Machine.{Machine}
use riscv32_cpu.Memory.Paddr.{paddr_read, paddr_write}
use riscv32_cpu.Memory.Paddr.Access.{paddr_read-paddr_write, paddr_read_past_end}
use riscv32_cpu.Tests.{fresh, sample}

paddr_read-paddr_write_example :
    (t : Machine) × (w : ℕ) × (paddr_write false 0x80000012 2 0x1abcd sample ≡ ok (tt, t))
    × (paddr_read false 0x80000012 2 t ≡ ok (0x1abcd % 256 ^ 2, t))
    × (paddr_read false 0x80000010 1 sample ≡ ok (w, sample))
    × (paddr_read false 0x80000010 1 t ≡ ok (w, t))
    × (t ≡ record sample { pmem = t.pmem })
paddr_read-paddr_write_example =
    paddr_read-paddr_write false 0x80000012 2 0x1abcd 0x80000010 1 sample refl
      (omega arith, omega arith) refl (omega arith, omega arith) (inl (omega arith))

paddr_read_past_end_example : paddr_read false 0x87fffffe 4 fresh ≡ fault Fault.undefined
paddr_read_past_end_example =
    paddr_read_past_end false 0x87fffffe 4 fresh refl (omega arith) (omega arith) (omega arith)
