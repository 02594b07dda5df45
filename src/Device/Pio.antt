-- ===== src/Device/Pio.antt =====
-- nemu/src/device/io/port-io.c: the table of the ports. It is a table of its own, so it goes in and
-- out of its functions; the accesses are those of the memory-mapped regions.
use riscv32_cpu.Base.{
  ℕ, suc, ◌+◌, ◌-◌, ◌^◌, ◌≤◌, ◌<◌, ◌≡◌, refl, ◌∙◌, ap, ap₂, Bool, true, false, Option, none, some,
  List, [], ◌∷◌, ◌++◌, length, get_elem?, leb, ltb, ◌&&◌, if◌then◌else◌, arith,
}
use riscv32_cpu.Fault.{Fault, Result, ok, fault}
use riscv32_cpu.Word.{u32}
use riscv32_cpu.Machine.{Callback, IoMap, M, pure, assert, stop_with, ◌>>=◌, ◌>>◌}
use riscv32_cpu.Device.Map.{map_inside, find_from, find_mapid_by_addr, map_read, map_write}

abbrev pub port_io_space_max : ℕ
port_io_space_max = 65535

abbrev pub nr_pio_map : ℕ
nr_pio_map = 16

-- `maps` is the array's first `nr_map` entries. The address is an `ioaddr_t`, of 16 bits.
unfoldable pub add_pio_map : ℕ → ℕ → ℕ → Callback → List IoMap → Result (List IoMap)
add_pio_map addr space len callback maps =
    if ltb (length maps) nr_pio_map && leb (u32 (addr + len)) port_io_space_max
    then ok (
        maps
        ++ record {
          low = addr;
          high = u32 (addr + len + 2 ^ 32 - 1);
          space = space;
          callback = callback;
        }
          ∷ [])
    else fault Fault.assertion

-- `&maps[mapid]`, behind the assertion that the index is not -1.
unfoldable pub map_at : List IoMap → Option ℕ → M (Option IoMap)
map_at maps none = stop_with Fault.assertion
map_at maps (some mapid) = pure (get_elem? maps mapid)

unfoldable pub pio_read : List IoMap → ℕ → ℕ → M ℕ
unfolding map_at find_mapid_by_addr map_read
pio_read maps addr len = do
  assert (ltb (addr + len - 1) port_io_space_max)
  map ← map_at maps (find_mapid_by_addr maps addr)
  map_read addr len map

unfoldable pub pio_write : List IoMap → ℕ → ℕ → ℕ → M (Unit {0})
unfolding map_at find_mapid_by_addr map_write
pio_write maps addr len v = do
  assert (ltb (addr + len - 1) port_io_space_max)
  map ← map_at maps (find_mapid_by_addr maps addr)
  map_write addr len v map

-- The index of an older region, or else that of a new one.
abbrev pub or_new : Option ℕ → Bool → ℕ → Option ℕ
or_new (some mapid) inside last = some mapid
or_new none inside last = if inside then some last else none

find_from-snoc :
    (maps : List IoMap) (map : IoMap) (i p : ℕ)
    → find_from i (maps ++ map ∷ []) p
      ≡ or_new (find_from i maps p) (map_inside map p) (i + length maps)
unfolding find_from
find_from-snoc [] map i p = ap (λ k. if map_inside map p then some k else none) (omega arith)
find_from-snoc (first ∷ maps) map i p =
    by_first (map_inside first p) (find_from-snoc maps map (i + 1) p)
  where
    by_first :
        (b : Bool)
        → find_from (i + 1) (maps ++ map ∷ []) p
          ≡ or_new (find_from (i + 1) maps p) (map_inside map p) (i + 1 + length maps)
        → (if b then some i else find_from (i + 1) (maps ++ map ∷ []) p)
          ≡ or_new
              (if b then some i else find_from (i + 1) maps p)
              (map_inside map p)
              (i + suc (length maps))
    by_first true rest = refl
    by_first false rest =
        rest ∙ ap (or_new (find_from (i + 1) maps p) (map_inside map p)) (omega arith)

inside_lem :
    (addr len space p : ℕ) (callback : Callback)
    → 1 ≤ len
    → addr + len ≤ port_io_space_max
    → map_inside
        (record {
          low = addr;
          high = u32 (addr + len + 2 ^ 32 - 1);
          space = space;
          callback = callback;
        })
        p
      ≡ (leb addr p && ltb p (addr + len))
unfolding map_inside
inside_lem addr len space p callback some_ports small = ground arith

-- Let a region of one or more ports lie below port 65535, and the table have room. Then add_pio_map
-- takes it, and the lookup of a port finds the region that it found before, or else, for a port of
-- the new region, the new one: an older region keeps its ports, where the two overlap.
pub find_mapid_by_addr-add_pio_map :
    (addr space len : ℕ) (callback : Callback) (maps : List IoMap) (p : ℕ)
    → 1 ≤ len
    → addr + len ≤ port_io_space_max
    → length maps < nr_pio_map
    → (after : List IoMap) × (add_pio_map addr space len callback maps ≡ ok after)
      × (find_mapid_by_addr after p
          ≡ or_new (find_mapid_by_addr maps p) (leb addr p && ltb p (addr + len)) (length maps))
unfolding add_pio_map find_mapid_by_addr
find_mapid_by_addr-add_pio_map addr space len callback maps p some_ports small room =
    let map : IoMap = record {
      low = addr;
      high = u32 (addr + len + 2 ^ 32 - 1);
      space = space;
      callback = callback;
    } in
    let taken : (ltb (length maps) nr_pio_map && leb (u32 (addr + len)) port_io_space_max) ≡ true =
      ground arith in
    (
      maps ++ map ∷ [],
      rw taken refl,
      find_from-snoc maps map 0 p
          ∙ ap₂ (or_new (find_from 0 maps p))
              (inside_lem addr len space p callback some_ports small) (omega arith),
    )
