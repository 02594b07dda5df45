-- ===== src/Host.antt =====
-- nemu/include/memory/host.h: reads and writes of 1, 2 and 4 bytes in a host array, on a
-- little-endian host. CONFIG_RT_CHECK is on and CONFIG_ISA64 is off, as in the generated
-- configuration, so another length fails an assertion.
pub mod Access
use riscv32_cpu.Base.{ℕ, zero, suc, ◌+◌, ◌*◌, ◌/◌, ◌%◌, ◌||◌, Bool, leb, ◌==◌, if◌then◌else◌}
use riscv32_cpu.Fault.{Fault, Result, ok, fault}
use riscv32_cpu.Machine.{Bytes, update}

-- The `n` bytes from `offset` on, lowest first, as a number, and the other way round.
unfoldable pub load : Bytes → ℕ → ℕ → ℕ
load m offset zero = 0
load m offset (suc n) = m offset + 256 * load m (offset + 1) n

unfoldable pub store : Bytes → ℕ → ℕ → ℕ → Bytes
store m offset zero v = m
store m offset (suc n) v = store (update m offset (v % 256)) (offset + 1) n (v / 256)

abbrev pub is_width : ℕ → Bool
is_width len = len == 1 || len == 2 || len == 4

-- `size` is the length of the array, and an access that leaves it is undefined in C.
unfoldable pub host_read : Bytes → ℕ → ℕ → ℕ → Result ℕ
host_read m size offset len =
    if is_width len
    then (if leb (offset + len) size then ok (load m offset len) else fault Fault.undefined)
    else fault Fault.assertion

unfoldable pub host_write : Bytes → ℕ → ℕ → ℕ → ℕ → Result Bytes
host_write m size offset len v =
    if is_width len
    then (if leb (offset + len) size then ok (store m offset len v) else fault Fault.undefined)
    else fault Fault.assertion
