-- ===== src/Device/Mmio/Disjoint.antt =====
-- The table of the memory-mapped regions: they stay apart, so an address has one region.
use riscv32_cpu.Base.{
  ℕ, zero, suc, ◌+◌, ◌-◌, ◌^◌, ◌<◌, ◌≤◌, ◌≡◌, refl, ap, ◌∙◌, ◌⊎◌, inl, inr, Bool, true, false, ◌&&◌,
  ◌||◌, some, List, [], ◌∷◌, ◌++◌, arith, leb, if◌then◌else◌, get_elem?,
}
use riscv32_cpu.Fault.{Fault, ok}
use riscv32_cpu.Word.{u32}
use riscv32_cpu.Machine.{Callback, IoMap, Machine, M, stop_with, put}
use riscv32_cpu.State.Gives.{
  Gives, Any, Gives-bind_get, Gives-bind_any, Gives-put, Gives-stop_with, Gives-assert,
  Gives-returned,
}
use riscv32_cpu.Memory.Range.{in_pmem}
use riscv32_cpu.Device.Map.{map_inside, find_from, find_mapid_by_addr}
use riscv32_cpu.Device.Mmio.{fetch_mmio_map, overlaps, add_mmio_map}

-- Two regions that share no address.
abbrev pub Apart : IoMap → IoMap → Type 0
Apart a b = (a.high < b.low) ⊎ (b.high < a.low)

-- A region is apart from each region of a list.
abbrev pub Clear : IoMap → List IoMap → Type 0
Clear map [] = Unit
Clear map (other ∷ rest) = Apart map other × Clear map rest

-- Any two regions of the table are apart.
abbrev pub IsSeparate : List IoMap → Type 0
IsSeparate [] = Unit
IsSeparate (map ∷ rest) = Clear map rest × IsSeparate rest

overlaps-Clear :
    (map : IoMap) (maps : List IoMap) → overlaps map.low map.high maps ≡ false → Clear map maps
unfolding overlaps
overlaps-Clear map [] e = tt
overlaps-Clear map (other ∷ rest) e =
    let split : ((leb map.low other.high && leb other.low map.high) ≡ false)
        × (overlaps map.low map.high rest ≡ false) =
      ground arith in
    (ground arith, overlaps-Clear map rest split.1)

Clear-snoc : (a b : IoMap) (maps : List IoMap) → Clear a maps → Apart a b → Clear a (maps ++ b ∷ [])
Clear-snoc a b [] h apart = (apart, tt)
Clear-snoc a b (other ∷ rest) h apart = (h.0, Clear-snoc a b rest h.1 apart)

Apart-sym : (a b : IoMap) → Apart a b → Apart b a
Apart-sym a b (inl h) = inr h
Apart-sym a b (inr h) = inl h

IsSeparate-snoc :
    (map : IoMap) (maps : List IoMap)
    → IsSeparate maps
    → Clear map maps
    → IsSeparate (maps ++ map ∷ [])
IsSeparate-snoc map [] h clear = (tt, tt)
IsSeparate-snoc map (other ∷ rest) h clear = (
  Clear-snoc other map rest h.0 (Apart-sym map other clear.0),
  IsSeparate-snoc map rest h.1 clear.1,
)

Gives-if_else :
    {P : Machine → Type 0} (b : Bool) (f : Fault) (k : M (Unit {0}))
    → (b ≡ false → Gives P k Any)
    → Gives P (if b then stop_with f else k) Any
Gives-if_else true f k h = Gives-stop_with Any f
Gives-if_else false f k h = h refl

abbrev pub HasSeparate : Machine → Type 0
HasSeparate s = IsSeparate s.io.maps

add_mmio_map-Gives :
    (addr space len : ℕ) (callback : Callback)
    → Gives HasSeparate (add_mmio_map addr space len callback) Any
unfolding add_mmio_map
add_mmio_map-Gives addr space len callback =
    let right = u32 (addr + len + 2 ^ 32 - 1) in
    let map : IoMap = record { low = addr; high = right; space = space; callback = callback } in
    Gives-bind_get _ λ s h.
      let t : Machine = record s { io = record (s.io) { maps = s.io.maps ++ map ∷ [] } } in
      let put_free = if overlaps addr right s.io.maps then stop_with Fault.overlap else put t in
      Gives-bind_any _ _ (Gives-assert _) λ _.
        Gives-if_else (in_pmem addr || in_pmem right) Fault.overlap put_free λ outside.
          Gives-if_else (overlaps addr right s.io.maps) Fault.overlap (put t) λ clear.
            Gives-put t (IsSeparate-snoc map s.io.maps h (overlaps-Clear map s.io.maps clear))

-- add_mmio_map keeps the regions apart: whenever it returns on a table in which any two regions share
-- no address, the new table has the same property.
pub add_mmio_map-IsSeparate :
    (addr space len : ℕ) (callback : Callback) (s t : Machine)
    → IsSeparate s.io.maps
    → add_mmio_map addr space len callback s ≡ ok (tt, t)
    → IsSeparate t.io.maps
add_mmio_map-IsSeparate addr space len callback s t h e =
    (Gives-returned (add_mmio_map-Gives addr space len callback) h e).0

Clear-outside :
    (map found : IoMap) (maps : List IoMap) (i addr : ℕ)
    → Clear map maps
    → get_elem? maps i ≡ some found
    → map_inside found addr ≡ true
    → map_inside map addr ≡ false
unfolding map_inside
Clear-outside map found [] i addr clear e inside = cc
Clear-outside map found (other ∷ rest) zero addr clear e inside =
    let same : other ≡ found = cc in ground arith
Clear-outside map found (other ∷ rest) (suc i) addr clear e inside =
    Clear-outside map found rest i addr clear.1 e inside

find_from-IsSeparate :
    (first : ℕ) (found : IoMap) (maps : List IoMap) (i addr : ℕ)
    → IsSeparate maps
    → get_elem? maps i ≡ some found
    → map_inside found addr ≡ true
    → find_from first maps addr ≡ some (first + i)
unfolding find_from
find_from-IsSeparate first found [] i addr h e inside = cc
find_from-IsSeparate first found (map ∷ rest) zero addr h e inside =
    let same : map ≡ found = cc in rw (same, inside) (ap some (omega arith))
find_from-IsSeparate first found (map ∷ rest) (suc i) addr h e inside =
    rw (Clear-outside map found rest i addr h.0 e inside)
      (find_from-IsSeparate (first + 1) found rest i addr h.1 e inside ∙ ap some (omega arith))

-- In a table whose regions are apart, the lookup of an address from the first to the last of a region
-- returns that region, wherever in the table it stands.
pub fetch_mmio_map-IsSeparate :
    (maps : List IoMap) (found : IoMap) (i addr : ℕ)
    → IsSeparate maps
    → get_elem? maps i ≡ some found
    → found.low ≤ addr
    → addr ≤ found.high
    → fetch_mmio_map maps addr ≡ some found
unfolding fetch_mmio_map find_mapid_by_addr
fetch_mmio_map-IsSeparate maps found i addr h e low high =
    let inside : map_inside found addr ≡ true = unfold map_inside in ground arith in
    rw (fetch_mmio_map, find_mapid_by_addr, find_from-IsSeparate 0 found maps i addr h e inside)
      (ap (get_elem? maps) (omega arith) ∙ e)
