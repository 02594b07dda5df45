-- ===== src/Device/Sdcard.antt =====
-- nemu/src/device/sdcard.c: the SD card behind the registers of its host controller. `base` is the
-- array of 32-bit registers, and the image file is the bytes and the position that stdio keeps.
pub mod Transfer
pub mod ExtCsd
use riscv32_cpu.Base.{
  ℕ, ◌+◌, ◌-◌, ◌*◌, ◌/◌, ◌%◌, ◌^◌, bit_and, bit_or, max, Bool, true, false, ◌&&◌, ◌||◌, Option,
  none, some, leb, ltb, ◌==◌, if◌then◌else◌,
}
use riscv32_cpu.Fault.{Fault}
use riscv32_cpu.Word.{u32}
use riscv32_cpu.Host.{load, store}
use riscv32_cpu.Machine.{Bytes}
use riscv32_cpu.State.{State, pure, stop_with, get, put, assert, ◌>>=◌, ◌>>◌}

abbrev pub memory_size : ℕ
memory_size = 16 * 1024 * 1024 * 1024

abbrev pub read_bl_len : ℕ
read_bl_len = 15

abbrev pub block_len : ℕ
block_len = 2 ^ read_bl_len

abbrev pub nr_block : ℕ
nr_block = memory_size / block_len

abbrev pub c_size_mult : ℕ
c_size_mult = 7

abbrev pub mult : ℕ
mult = 2 ^ (c_size_mult + 2)

abbrev pub c_size : ℕ
c_size = nr_block / mult - 1

-- The indices of the registers.
abbrev pub sdcmd : ℕ
sdcmd = 0

abbrev pub sdarg : ℕ
sdarg = 1

abbrev pub sdrsp0 : ℕ
sdrsp0 = 4

abbrev pub sdrsp1 : ℕ
sdrsp1 = 5

abbrev pub sdrsp2 : ℕ
sdrsp2 = 6

abbrev pub sdrsp3 : ℕ
sdrsp3 = 7

abbrev pub sddata : ℕ
sddata = 16

pub record File : Type 0 where
  pub bytes : Bytes
  pub size : ℕ
  pub position : ℕ

pub record Sd : Type 0 where
  pub fp : Option File
  pub base : ℕ → ℕ
  pub blkcnt : ℕ
  pub blk_addr : ℕ
  pub addr : ℕ
  pub write_cmd : Bool
  pub read_ext_csd : Bool

abbrev pub D : Type 0 → Type 0
D = State Sd

-- `base[idx] = v`
unfoldable pub set_base : ℕ → ℕ → D (Unit {0})
set_base idx v = do s ← get; put (record s { base = λ j. if j == idx then v else s.base j })

-- fseek from the start, fread and fwrite of one item of 4 bytes. Near its end the file gives the
-- bytes it has, and the others of the item stay.
unfoldable pub fseek : ℕ → Option File → Option File
fseek position none = none
fseek position (some f) = some (record f { position = position })

unfoldable pub fread_4 : File → ℕ → ℕ × File
fread_4 f old =
    if leb (f.position + 4) f.size
    then (load f.bytes f.position 4, record f { position = f.position + 4 })
    else (
      load f.bytes f.position (f.size - f.position)
          + old / 256 ^ (f.size - f.position) * 256 ^ (f.size - f.position),
      record f { position = max f.position f.size },
    )

unfoldable pub fwrite_4 : File → ℕ → File
fwrite_4 f v = record {
  bytes = store f.bytes f.position 4 v;
  size = max f.size (f.position + 4);
  position = f.position + 4;
}

unfoldable pub prepare_rw : Bool → D (Unit {0})
unfolding fseek
prepare_rw is_write = do
  s ← get
  put (record s {
    blk_addr = s.base sdarg;
    addr = 0;
    fp = fseek (s.base sdarg * 2 ^ 9) s.fp;
    write_cmd = is_write;
  })

unfoldable pub send_cid : D (Unit {0})
unfolding set_base
send_cid = do
  set_base sdrsp0 0x00000001
  set_base sdrsp1 0x00000000
  set_base sdrsp2 0x00000000
  set_base sdrsp3 0x15000000

unfoldable pub send_csd : D (Unit {0})
unfolding set_base
send_csd = do
  set_base sdrsp0 0x92404001
  set_base sdrsp1 (u32 (bit_or 0x124b97e3 (bit_and c_size 3 * 2 ^ 30)))
  set_base sdrsp2 (u32 (bit_or (bit_or 0x0f508000 (c_size / 4)) (read_bl_len * 2 ^ 16)))
  set_base sdrsp3 0x9026012a

unfoldable pub send_ext_csd : D (Unit {0})
send_ext_csd = do s ← get; put (record s { read_ext_csd = true; addr = 0 })

unfoldable pub set_block_count : D (Unit {0})
set_block_count = do s ← get; put (record s { blkcnt = bit_and (s.base sdarg) 0xffff })

unfoldable pub send_status : D (Unit {0})
unfolding set_base
send_status = do set_base sdrsp0 0x900; set_base sdrsp3 0; set_base sdrsp2 0; set_base sdrsp1 0

-- Commands that only break: go idle, sleep, application command, relative address, select card,
-- stop transmission, and 52.
unfoldable pub is_ignored : ℕ → Bool
is_ignored cmd = cmd == 0 || cmd == 52 || cmd == 5 || cmd == 55 || cmd == 3 || cmd == 7 || cmd == 12

-- The commands, by the numbers of mmc.h.
unfoldable pub sdcard_handle_cmd : ℕ → D (Unit {0})
unfolding set_base prepare_rw send_cid send_csd send_ext_csd set_block_count send_status is_ignored
sdcard_handle_cmd cmd =
    if cmd == 1
    then set_base sdrsp0 0x80ff8000
    else if cmd == 2
    then send_cid
    else if cmd == 9
    then send_csd
    else if cmd == 8
    then send_ext_csd
    else if cmd == 23
    then set_block_count
    else if cmd == 18
    then prepare_rw false
    else if cmd == 25
    then prepare_rw true
    else if cmd == 13
    then send_status
    else if is_ignored cmd
    then pure tt
    else stop_with Fault.panic

-- One word of the register EXT_CSD.
unfoldable pub ext_csd_word : ℕ → ℕ
ext_csd_word addr = if addr == 192 then 2 else if addr == 212 then u32 (memory_size / 512) else 0

unfoldable pub end_ext_csd : D (Unit {0})
end_ext_csd = do
  s ← get
  put (record s { read_ext_csd = if s.addr == 512 - 4 then false else s.read_ext_csd })

-- fread and fwrite on the data register.
unfoldable pub move_word : Option File → D (Unit {0})
unfolding set_base fread_4 fwrite_4
move_word none = pure tt
move_word (some f) = do
  s ← get
  if s.write_cmd
      then put (record s { fp = some (fwrite_4 f (s.base sddata)) })
      else (put (record s { fp = some (fread_4 f (s.base sddata)).1 })
          >> set_base sddata (fread_4 f (s.base sddata)).0)

unfoldable pub data_access : D (Unit {0})
unfolding ext_csd_word end_ext_csd move_word
data_access = do
  s ← get
  (if s.read_ext_csd
      then (set_base sddata (ext_csd_word s.addr) >> end_ext_csd)
      else move_word s.fp)
  t ← get
  put (record t { addr = u32 (t.addr + 4) })

-- The cases of the switch on the register.
unfoldable pub sdcard_access : ℕ → D (Unit {0})
unfolding sdcard_handle_cmd data_access
sdcard_access idx =
    if idx == sdcmd
    then (get >>= λ s. sdcard_handle_cmd (bit_and (s.base sdcmd) 0x3f))
    else if idx == sddata
    then data_access
    else if idx == sdarg || (leb sdrsp0 idx && leb idx sdrsp3)
    then pure tt
    else stop_with Fault.panic

unfoldable pub sdcard_io_handler : ℕ → ℕ → Bool → D (Unit {0})
unfolding sdcard_access
sdcard_io_handler offset len is_write = sdcard_access (offset / 4)
