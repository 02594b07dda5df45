-- ===== src/Device/Mmio.antt =====
-- nemu/src/device/io/mmio.c: the table of the maps, and its users.
pub mod Disjoint
use riscv32_cpu.Base.{
  ℕ, zero, suc, ◌+◌, ◌-◌, ◌^◌, Bool, true, false, ◌&&◌, ◌||◌, Option, none, some, List, [], ◌∷◌,
  ◌++◌, ltb, leb, if◌then◌else◌, length, get_elem?,
}
use riscv32_cpu.Fault.{Fault}
use riscv32_cpu.Word.{u32}
use riscv32_cpu.Machine.{
  Callback, IoMap, Io, Machine, M, pure, stop_with, get, put, assert, ◌>>=◌, ◌>>◌,
}
use riscv32_cpu.Device.Map.{find_mapid_by_addr, map_read, map_write}
use riscv32_cpu.Memory.Range.{in_pmem}

abbrev pub nr_map_max : ℕ
nr_map_max = 16

-- `maps` is the array's first `nr_map` entries, so an index of it is in range.
unfoldable pub fetch_mmio_map : List IoMap → ℕ → Option IoMap
unfolding find_mapid_by_addr
fetch_mmio_map maps addr = elim (find_mapid_by_addr maps addr) [
  | none ↦ none
  | some mapid ↦ get_elem? maps mapid
]

unfoldable pub overlaps : ℕ → ℕ → List IoMap → Bool
overlaps left right [] = false
overlaps left right (map ∷ rest) =
    (leb left map.high && leb map.low right) || overlaps left right rest

unfoldable pub add_mmio_map : ℕ → ℕ → ℕ → Callback → M (Unit {0})
unfolding overlaps in_pmem
add_mmio_map addr space len callback = do
  s ← get
  assert (ltb (length s.io.maps) nr_map_max)
  let right = u32 (addr + len + 2 ^ 32 - 1)
  if in_pmem addr || in_pmem right
      then stop_with Fault.overlap
      else if overlaps addr right s.io.maps
      then stop_with Fault.overlap
      else put (record s {
        io = record (s.io) {
          maps =
              s.io.maps
              ++ record { low = addr; high = right; space = space; callback = callback } ∷ [];
        };
      })

unfoldable pub mmio_read : ℕ → ℕ → M ℕ
unfolding fetch_mmio_map map_read
mmio_read addr len = do s ← get; map_read addr len (fetch_mmio_map s.io.maps addr)

unfoldable pub mmio_write : ℕ → ℕ → ℕ → M (Unit {0})
unfolding fetch_mmio_map map_write
mmio_write addr len v = do s ← get; map_write addr len v (fetch_mmio_map s.io.maps addr)
