-- ===== src/Device/Map.antt =====
-- nemu/src/device/io/map.c and nemu/include/device/map.h: the devices' memory and the accesses to it.
pub mod Space
use riscv32_cpu.Base.{
  ℕ, zero, suc, ◌+◌, ◌-◌, ◌*◌, ◌^◌, bit_and, Bool, true, false, ◌&&◌, Option, none, some, List, [],
  ◌∷◌, ltb, leb, ◌==◌, if◌then◌else◌,
}
use riscv32_cpu.Fault.{Fault}
use riscv32_cpu.Word.{u32, u64}
use riscv32_cpu.Host.{host_read, host_write}
use riscv32_cpu.Machine.{
  Bytes, IoMap, Io, Machine, M, pure, lift, stop_with, get, put, assert, ◌>>=◌, ◌>>◌,
}
use riscv32_cpu.Device.Handlers.{invoke_callback}

abbrev pub io_space_max : ℕ
io_space_max = 32 * 1024 * 1024

abbrev page_mask : ℕ
page_mask = 2 ^ 12 - 1

-- The size, below 2^31, rounded up to whole pages; `&` is on 64 bits, where `~PAGE_MASK` is
-- 2^64 - 1 - PAGE_MASK.
unfoldable pub page_aligned : ℕ → ℕ
page_aligned size = bit_and (u64 (size + page_mask)) (2 ^ 64 - 1 - page_mask)

unfoldable pub new_space : ℕ → M ℕ
unfolding page_aligned
new_space size = do
  s ← get
  let p = s.io.p_space
  let next = p + page_aligned size
  put (record s { io = record (s.io) { p_space = next } })
  assert (ltb next io_space_max)
  pure p

unfoldable pub map_inside : IoMap → ℕ → Bool
map_inside map addr = leb map.low addr && leb addr map.high

-- The loop from index `i` on. `none` is the -1 of the source. difftest_skip_ref does nothing, as
-- CONFIG_DIFFTEST is off.
unfoldable pub find_from : ℕ → List IoMap → ℕ → Option ℕ
find_from i [] addr = none
find_from i (map ∷ rest) addr =
    let later = find_from (i + 1) rest addr in if map_inside map addr then some i else later

unfoldable pub find_mapid_by_addr : List IoMap → ℕ → Option ℕ
unfolding find_from map_inside
find_mapid_by_addr maps addr = find_from 0 maps addr

-- `none` is a NULL pointer.
unfoldable pub check_bound : Option IoMap → ℕ → M IoMap
check_bound none addr = stop_with Fault.assertion
check_bound (some map) addr = do assert (leb addr map.high && leb map.low addr); pure map

unfoldable pub map_read : ℕ → ℕ → Option IoMap → M ℕ
unfolding check_bound host_read
map_read addr len m = do
  assert (leb 1 len && leb len 8)
  map ← check_bound m addr
  let offset = u32 (addr + 2 ^ 32 - map.low)
  invoke_callback map.callback offset len false
  s ← get
  lift (host_read s.io.io_space io_space_max (map.space + offset) len)

unfoldable pub map_write : ℕ → ℕ → ℕ → Option IoMap → M (Unit {0})
unfolding check_bound host_write
map_write addr len v m = do
  assert (leb 1 len && leb len 8)
  map ← check_bound m addr
  let offset = u32 (addr + 2 ^ 32 - map.low)
  s ← get
  bytes ← lift (host_write s.io.io_space io_space_max (map.space + offset) len v)
  put (record s { io = record (s.io) { io_space = bytes } })
  invoke_callback map.callback offset len true
