-- ===== src/Device/Map/Space.antt =====
-- The allocator of the devices' memory.
use riscv32_cpu.Base.{ℕ, ◌+◌, ◌-◌, ◌*◌, ◌/◌, ◌%◌, ◌^◌, ◌≤◌, ◌<◌, ◌≡◌, refl, true, arith, ltb}
use riscv32_cpu.Fault.{ok}
use riscv32_cpu.Word.{u64}
use riscv32_cpu.Word.Bits.{bit_and_mask, bit_and-zero}
use riscv32_cpu.Pattern.Split.{bit_and_split}
use riscv32_cpu.Machine.{Machine, ◌>>=◌}
use riscv32_cpu.Device.Map.{io_space_max, page_aligned, new_space}

-- The rounding with a mask is the rounding up to a multiple of the page's size.
pub page_aligned_lem : (size : ℕ) → size < 2 ^ 31 → page_aligned size ≡ (size + 4095) / 4096 * 4096
unfolding page_aligned
page_aligned_lem size small =
    let x = u64 (size + (2 ^ 12 - 1)) in
    rw
      (
        bit_and_split 12 x (2 ^ 52 - 1) 0 (omega arith),
        bit_and_mask 52 (x / 2 ^ 12),
        bit_and-zero x,
      )
      (omega arith)

-- Let the space's start be on a page and leave room for `size` bytes in whole pages. Then new_space
-- returns that start; the new start leaves out at least `size` bytes and less than a page more, is
-- on a page again, and lies in the array; and nothing else changes.
pub new_space_lem :
    (size : ℕ) (s : Machine)
    → size < 2 ^ 31
    → s.io.p_space % 4096 ≡ 0
    → s.io.p_space + size + 4095 < io_space_max
    → (next : ℕ) × (new_space size s
        ≡ ok (s.io.p_space, record s { io = record (s.io) { p_space = next } }))
      × (s.io.p_space + size ≤ next)
      × (next < s.io.p_space + size + 4096)
      × (next % 4096 ≡ 0)
      × (next < io_space_max)
unfolding new_space ◌>>=◌
new_space_lem size s small on_page room =
    let aligned = page_aligned_lem size small in
    let next = s.io.p_space + page_aligned size in
    let fits : ltb next io_space_max ≡ true = rw aligned (ground arith) in
    (
      next,
      rw fits refl,
      rw aligned (omega arith),
      rw aligned (omega arith),
      rw aligned (omega arith),
      rw aligned (omega arith),
    )
