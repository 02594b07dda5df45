-- ===== src/Memory/Range.antt =====
-- nemu/include/memory/paddr.h and the address conversions of nemu/src/memory/paddr.c, with the
-- values of nemu/include/config/auto.conf: CONFIG_MBASE and CONFIG_MSIZE.
use riscv32_cpu.Base.{ℕ, ◌+◌, ◌-◌, ◌^◌, ◌≤◌, ◌<◌, ◌≡◌, ◌↔◌, Bool, true, ltb, arith}
use riscv32_cpu.Word.{u32, u64}

abbrev pub mbase : ℕ
mbase = 0x80000000

abbrev pub msize : ℕ
msize = 0x8000000

abbrev pub pmem_left : ℕ
pmem_left = mbase

abbrev pub pmem_right : ℕ
pmem_right = u32 (mbase + msize - 1)

-- CONFIG_PC_RESET_OFFSET is 0.
abbrev pub reset_vector : ℕ
reset_vector = u32 (pmem_left + 0)

-- The subtraction is of `uint32_t`.
unfoldable pub in_pmem : ℕ → Bool
in_pmem addr = ltb (u32 (addr + 2 ^ 32 - mbase)) msize

-- Host pointers as offsets from `pmem`: on 64 bits, where the guest address is first added.
unfoldable pub guest_to_host : ℕ → ℕ
guest_to_host paddr = u64 (paddr + 2 ^ 64 - mbase)

unfoldable pub host_to_guest : ℕ → ℕ
host_to_guest haddr = u32 (haddr + mbase)

-- in_pmem is the range from PMEM_LEFT to PMEM_RIGHT: the unsigned subtraction tests both ends.
pub in_pmem_iff :
    (addr : ℕ) → addr < 2 ^ 32 → (in_pmem addr ≡ true) ↔ ((pmem_left ≤ addr) × (addr ≤ pmem_right))
unfolding in_pmem
in_pmem_iff addr word = ground arith

-- Inside the memory the two conversions undo one another, and the offset lies in the array.
pub host_to_guest-guest_to_host :
    (addr : ℕ)
    → addr < 2 ^ 32
    → in_pmem addr ≡ true
    → (host_to_guest (guest_to_host addr) ≡ addr) × (guest_to_host addr < msize)
unfolding in_pmem guest_to_host host_to_guest
host_to_guest-guest_to_host addr word inside = ground arith
