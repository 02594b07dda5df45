-- ===== src/Memory/Paddr.antt =====
-- nemu/src/memory/paddr.c and nemu/src/memory/vaddr.c. CONFIG_DEVICE, on which they depend, is the
-- parameter `device`; the generated configuration has it off. The virtual accesses are the physical
-- ones, so vaddr_ifetch, vaddr_read and vaddr_write have the definitions of paddr_read and
-- paddr_write.
pub mod Access
pub mod Valid
use riscv32_cpu.Base.{ℕ, ◌+◌, ◌%◌, ◌^◌, Bool, if◌then◌else◌}
use riscv32_cpu.Fault.{Fault}
use riscv32_cpu.Word.{u32}
use riscv32_cpu.Host.{host_read, host_write}
use riscv32_cpu.Machine.{Bytes, Machine, M, pure, lift, stop_with, get, put, ◌>>=◌, ◌>>◌}
use riscv32_cpu.Memory.Range.{msize, in_pmem, guest_to_host}
use riscv32_cpu.Device.Mmio.{mmio_read, mmio_write}

unfoldable pub pmem_read : ℕ → ℕ → M ℕ
unfolding host_read guest_to_host
pmem_read addr len = do s ← get; lift (host_read s.pmem msize (guest_to_host addr) len)

unfoldable pub pmem_write : ℕ → ℕ → ℕ → M (Unit {0})
unfolding host_write guest_to_host
pmem_write addr len v = do
  s ← get
  bytes ← lift (host_write s.pmem msize (guest_to_host addr) len v)
  put (record s { pmem = bytes })

unfoldable pub out_of_bound : {A : Type 0} → ℕ → M A
out_of_bound addr = stop_with (Fault.out_of_bound addr)

module _ (device : Bool) where
  unfoldable pub paddr_read : ℕ → ℕ → M ℕ
  unfolding out_of_bound
  paddr_read addr len =
      if in_pmem addr
      then pmem_read addr len
      else (if device then mmio_read addr len else out_of_bound addr)

  unfoldable pub paddr_write : ℕ → ℕ → ℕ → M (Unit {0})
  unfolding out_of_bound
  paddr_write addr len v =
      if in_pmem addr
      then pmem_write addr len v
      else (if device then mmio_write addr len v else out_of_bound addr)

  unfoldable pub vaddr_ifetch : ℕ → ℕ → M ℕ
  vaddr_ifetch addr len = paddr_read addr len

  unfoldable pub vaddr_read : ℕ → ℕ → M ℕ
  vaddr_read addr len = paddr_read addr len

  unfoldable pub vaddr_write : ℕ → ℕ → ℕ → M (Unit {0})
  vaddr_write addr len v = paddr_write addr len v

  -- nemu/include/cpu/ifetch.h: the instruction, and the advanced program counter.
  unfoldable pub inst_fetch : ℕ → ℕ → M (ℕ × ℕ)
  unfolding vaddr_ifetch
  inst_fetch pc len = do inst ← vaddr_ifetch pc len; pure (u32 inst, u32 (pc + len))
