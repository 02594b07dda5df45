-- ===== src/Tests/Devices.antt =====
-- Runs of the devices.
use riscv32_cpu.Base.{ℕ, ◌+◌, ◌%◌, ◌≤◌, ◌<◌, ◌≡◌, refl, true, some, [], ◌∷◌, ◌++◌, arith}
use riscv32_cpu.Fault.{ok}
use riscv32_cpu.Machine.{Machine, serial, null, ◌>>=◌}
use riscv32_cpu.Memory.Range.{in_pmem}
use riscv32_cpu.Device.Keyboard.{key_enqueue, key_dequeue}
use riscv32_cpu.Device.Keyboard.Queue.{
  slots, queued, pop, IsRing, key_enqueue-queued, key_dequeue-queued,
}
use riscv32_cpu.Device.Map.{io_space_max, new_space}
use riscv32_cpu.Device.Map.Space.{new_space_lem}
use riscv32_cpu.Device.Mmio.{overlaps, fetch_mmio_map, add_mmio_map}
use riscv32_cpu.Device.Mmio.Disjoint.{
  IsSeparate, add_mmio_map-IsSeparate, fetch_mmio_map-IsSeparate,
}
use riscv32_cpu.Device.Init.{init_device}
use riscv32_cpu.Device.Init.Regions.{regions, init_device-regions}
use riscv32_cpu.Tests.{fresh}

-- The ring's indices at its last slot, with nothing waiting.
fresh-IsRing : IsRing fresh.keyboard
fresh-IsRing = record { front = omega arith; rear = omega arith }

key_enqueue-queued_example :
    (t : Machine) × (key_enqueue 9 fresh ≡ ok (tt, t))
    × (queued t.keyboard ≡ queued fresh.keyboard ++ 9 ∷ [])
    × IsRing t.keyboard
key_enqueue-queued_example = key_enqueue-queued 9 fresh fresh-IsRing (unfold slots in omega arith)

-- One event waits in the last slot.
abbrev one_key : Machine
one_key = record fresh { keyboard = record (fresh.keyboard) { key_queue = λ i. 7; key_r = 0 } }

one_key-IsRing : IsRing one_key.keyboard
one_key-IsRing = record { front = omega arith; rear = omega arith }

key_dequeue-queued_example :
    (t : Machine) × (key_dequeue one_key ≡ ok ((pop (queued one_key.keyboard)).0, t))
    × (queued t.keyboard ≡ (pop (queued one_key.keyboard)).1)
    × IsRing t.keyboard
key_dequeue-queued_example = key_dequeue-queued one_key one_key-IsRing

abbrev full : Machine
full = record fresh { keyboard = record (fresh.keyboard) { key_f = 0 } }

full-IsRing : IsRing full.keyboard
full-IsRing = record { front = omega arith; rear = omega arith }

new_space_lem_example :
    (next : ℕ) × (new_space 24 fresh
      ≡ ok (0, record fresh { io = record (fresh.io) { p_space = next } }))
    × (0 + 24 ≤ next)
    × (next < 0 + 24 + 4096)
    × (next % 4096 ≡ 0)
    × (next < io_space_max)
new_space_lem_example = new_space_lem 24 fresh (omega arith) (omega arith) (omega arith)

abbrev after_add : Machine
after_add = record fresh {
  io = record (fresh.io) {
    maps = record { low = 0xa00003f8; high = 0xa00003ff; space = 0; callback = serial } ∷ [];
  };
}

add_run : add_mmio_map 0xa00003f8 0 8 serial fresh ≡ ok (tt, after_add)
unfolding add_mmio_map ◌>>=◌ overlaps in_pmem
add_run = refl

add_mmio_map-IsSeparate_example : IsSeparate after_add.io.maps
add_mmio_map-IsSeparate_example =
    add_mmio_map-IsSeparate 0xa00003f8 0 8 serial fresh after_add tt add_run

fetch_mmio_map-IsSeparate_example :
    fetch_mmio_map regions 0xa10752ff
    ≡ some (record { low = 0xa1000000; high = 0xa10752ff; space = 0x3000; callback = null })
fetch_mmio_map-IsSeparate_example =
    fetch_mmio_map-IsSeparate regions
      (record { low = 0xa1000000; high = 0xa10752ff; space = 0x3000; callback = null }) 3 0xa10752ff
      (ground arith) refl (omega arith) (omega arith)

init_device-regions_example :
    (t : Machine) × (init_device (41 ∷ 58 ∷ []) true true fresh ≡ ok (tt, t))
    × (t.io.maps ≡ regions)
    × IsSeparate t.io.maps
    × (t.io.p_space < io_space_max)
init_device-regions_example = init_device-regions (41 ∷ 58 ∷ []) fresh refl refl
