-- ===== src/Memory/Paddr/Valid.antt =====
-- Accesses by address keep the state well-formed, and a read gives a word.
use riscv32_cpu.Base.{ℕ, Bool, arith}
use riscv32_cpu.Host.Access.{IsBytes, host_read-lt, host_write-IsBytes}
use riscv32_cpu.State.Gives.{
  Gives, Any, Gives-bind, Gives-bind_get, Gives-put, Gives-lift, Gives-pure, gives_rules,
}
use riscv32_cpu.Machine.Valid.{IsValid, IsWord}
use riscv32_cpu.Device.Access.{mmio_read-Gives, mmio_write-Gives}
use riscv32_cpu.Memory.Range.{msize, guest_to_host}
use riscv32_cpu.Memory.Paddr.{
  pmem_read, pmem_write, paddr_read, paddr_write, vaddr_ifetch, vaddr_read, vaddr_write, inst_fetch,
}

pmem_read-Gives : (addr len : ℕ) → Gives IsValid (pmem_read addr len) IsWord
unfolding pmem_read
pmem_read-Gives addr len = Gives-bind_get _ λ s h.
    Gives-lift IsWord _ (λ v e. host_read-lt s.pmem msize (guest_to_host addr) len v h.pmem_bytes e)

pmem_write-Gives : (addr len v : ℕ) → Gives IsValid (pmem_write addr len v) Any
unfolding pmem_write
pmem_write-Gives addr len v = Gives-bind_get _ λ s h.
    Gives-bind _ _
      (Gives-lift IsBytes _
        (λ k e. host_write-IsBytes s.pmem msize (guest_to_host addr) len v k h.pmem_bytes e))
      λ bytes is_bytes.
        Gives-put _ (record { cpu_part = h.cpu_part; pmem_bytes = is_bytes; io_bytes = h.io_bytes })

ruleset access_rules =
    (gives_rules, pmem_read-Gives, pmem_write-Gives, mmio_read-Gives, mmio_write-Gives)

pub paddr_read-Gives : (d : Bool) (addr len : ℕ) → Gives IsValid (paddr_read d addr len) IsWord
unfolding paddr_read
paddr_read-Gives d addr len = search access_rules

pub paddr_write-Gives : (d : Bool) (addr len v : ℕ) → Gives IsValid (paddr_write d addr len v) Any
unfolding paddr_write
paddr_write-Gives d addr len v = search access_rules

pub vaddr_read-Gives : (d : Bool) (addr len : ℕ) → Gives IsValid (vaddr_read d addr len) IsWord
unfolding vaddr_read
vaddr_read-Gives = paddr_read-Gives

pub vaddr_write-Gives : (d : Bool) (addr len v : ℕ) → Gives IsValid (vaddr_write d addr len v) Any
unfolding vaddr_write
vaddr_write-Gives = paddr_write-Gives

-- The fetched instruction and the advanced program counter are words.
pub inst_fetch-Gives :
    (d : Bool) (pc len : ℕ)
    → Gives IsValid (inst_fetch d pc len) (λ fetched. IsWord fetched.0 × IsWord fetched.1)
unfolding inst_fetch
inst_fetch-Gives d pc len =
    Gives-bind _ _ (unfold vaddr_ifetch in paddr_read-Gives d pc len)
      λ inst word. Gives-pure _ _ (omega arith)
