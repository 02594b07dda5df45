-- ===== src/Tests/Storage.antt =====
-- Runs of the SD card and of the ports.
use riscv32_cpu.Base.{ℕ, ◌+◌, ◌≡◌, refl, ◌&&◌, false, some, List, [], ◌∷◌, length, leb, ltb, arith}
use riscv32_cpu.Fault.{ok}
use riscv32_cpu.Machine.{serial, rtc, IoMap, ◌>>◌}
use riscv32_cpu.Device.Map.{find_mapid_by_addr}
use riscv32_cpu.Device.Pio.{add_pio_map, or_new, find_mapid_by_addr-add_pio_map}
use riscv32_cpu.Device.Sdcard.{File, Sd}
use riscv32_cpu.Device.Sdcard.Transfer.{command, write_words, read_words, read_words-write_words}
use riscv32_cpu.Device.Sdcard.ExtCsd.{ext_csd, read_words-ext_csd}

-- A card with an image of 600 zeros.
abbrev image : File
image = record { bytes = λ j. 0; size = 600; position = 0 }

abbrev card : Sd
card = record {
  fp = some image;
  base = λ i. 0;
  blkcnt = 0;
  blk_addr = 0;
  addr = 0;
  write_cmd = false;
  read_ext_csd = false;
}

abbrev two : List ℕ
two = 0xdeadbeef ∷ 7 ∷ []

read_words-write_words_example :
    (t : Sd) × ((command 25 1 >> write_words two >> command 18 1 >> read_words (length two)) card
      ≡ ok (two, t))
read_words-write_words_example =
    read_words-write_words 1 two card image refl refl (omega arith, (omega arith, tt))

read_words-ext_csd_example :
    (t : Sd) × ((command 8 0 >> read_words 128) card ≡ ok (ext_csd, t)) × (t.read_ext_csd ≡ false)
read_words-ext_csd_example = read_words-ext_csd 0 card

abbrev ports : List IoMap
ports = record { low = 0x48; high = 0x4f; space = 0; callback = rtc } ∷ []

find_mapid_by_addr-add_pio_map_example :
    (after : List IoMap) × (add_pio_map 0x3f8 8 8 serial ports ≡ ok after)
    × (find_mapid_by_addr after 0x3fa
        ≡ or_new
            (find_mapid_by_addr ports 0x3fa)
            (leb 0x3f8 0x3fa && ltb 0x3fa (0x3f8 + 8))
            (length ports))
find_mapid_by_addr-add_pio_map_example =
    find_mapid_by_addr-add_pio_map 0x3f8 8 8 serial ports 0x3fa (omega arith) (omega arith)
      (omega arith)
