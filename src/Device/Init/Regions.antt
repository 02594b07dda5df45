-- ===== src/Device/Init/Regions.antt =====
-- The table of regions that init_device leaves.
use riscv32_cpu.Base.{ℕ, ◌<◌, ◌≡◌, refl, ap, ap₂, true, ◌∙◌, List, [], ◌∷◌, arith}
use riscv32_cpu.Fault.{ok}
use riscv32_cpu.Machine.{IoMap, Callback, null, serial, rtc, i8042, audio, Machine, ◌>>=◌}
use riscv32_cpu.Memory.Range.{in_pmem}
use riscv32_cpu.Device.Map.{io_space_max, page_aligned}
use riscv32_cpu.Device.Mmio.{overlaps}
use riscv32_cpu.Device.Mmio.Disjoint.{IsSeparate}
use riscv32_cpu.Device.Init.{init_device}

abbrev region : ℕ → ℕ → ℕ → Callback → IoMap
region low high space callback = record {
  low = low;
  high = high;
  space = space;
  callback = callback;
}

-- The regions with their devices' memory, in the order in which init_device adds them.
abbrev pub regions : List IoMap
regions =
    region 0xa00003f8 0xa00003ff 0x0 serial
    ∷ region 0xa0000048 0xa000004f 0x1000 rtc
    ∷ region 0xa0000100 0xa0000107 0x2000 null
    ∷ region 0xa1000000 0xa10752ff 0x3000 null
    ∷ region 0xa0000060 0xa0000063 0x79000 i8042
    ∷ region 0xa0000200 0xa0000217 0x7a000 audio
    ∷ region 0xa1200000 0xa120ffff 0x7b000 null
    ∷ []

regions-IsSeparate : IsSeparate regions
regions-IsSeparate = ground arith

no_regions : Machine → Machine
no_regions s = record s { io = record (s.io) { maps = [] }; alarm_idx = 0 }

no_regions_lem : (s : Machine) → s.io.maps ≡ [] → s.alarm_idx ≡ 0 → s ≡ no_regions s
unfolding no_regions
no_regions_lem s e idle =
    ap₂ (λ maps idx. record s { io = record (s.io) { maps = maps }; alarm_idx = idx }) e idle

from_none :
    (scancodes : List ℕ) (s : Machine)
    → (t : Machine) × (init_device scancodes true true (no_regions s) ≡ ok (tt, t))
      × (t.io.maps ≡ regions)
      × (t.io.p_space ≡ 0x8b000)
unfolding no_regions init_device ◌>>=◌ page_aligned overlaps in_pmem
from_none scancodes s = (_, refl, refl, refl)

pub init_device-regions :
    (scancodes : List ℕ) (s : Machine)
    → s.io.maps ≡ []
    → s.alarm_idx ≡ 0
    → (t : Machine) × (init_device scancodes true true s ≡ ok (tt, t))
      × (t.io.maps ≡ regions)
      × IsSeparate t.io.maps
      × (t.io.p_space < io_space_max)
init_device-regions scancodes s e idle =
    let run = from_none scancodes s in
    (
      run.0,
      ap (init_device scancodes true true) (no_regions_lem s e idle) ∙ run.1,
      run.2,
      rw run.2 regions-IsSeparate,
      rw run.3 (omega arith),
    )
