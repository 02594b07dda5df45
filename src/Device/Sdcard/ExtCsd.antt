-- ===== src/Device/Sdcard/ExtCsd.antt =====
-- The register EXT_CSD, as a driver reads it through nemu/src/device/sdcard.c.
use riscv32_cpu.Base.{
  ℕ, zero, suc, ◌+◌, ◌*◌, ◌<◌, ◌≡◌, refl, ◌∙◌, ap, true, false, List, [], ◌∷◌, ◌==◌, if◌then◌else◌,
  arith,
}
use riscv32_cpu.Fault.{ok}
use riscv32_cpu.Word.{u32}
use riscv32_cpu.State.{◌>>=◌, ◌>>◌}
use riscv32_cpu.Device.Sdcard.{
  sdcmd, sdarg, sddata, Sd, set_base, sdcard_handle_cmd, send_ext_csd, ext_csd_word, end_ext_csd,
  data_access, sdcard_access, sdcard_io_handler,
}
use riscv32_cpu.Device.Sdcard.Transfer.{send, receive, command, read_words}

-- The `n` words of EXT_CSD from an address on.
abbrev pub ext_csd_from : ℕ → ℕ → List ℕ
ext_csd_from zero addr = []
ext_csd_from (suc n) addr = ext_csd_word addr ∷ ext_csd_from n (addr + 4)

receive_ext_csd :
    (s : Sd)
    → s.read_ext_csd ≡ true
    → s.addr < 512
    → (t : Sd) × (receive sddata s ≡ ok (ext_csd_word s.addr, t))
      × (t.addr ≡ s.addr + 4)
      × (t.read_ext_csd ≡ (if s.addr == 508 then false else true))
unfolding receive set_base sdcard_io_handler sdcard_access data_access end_ext_csd ◌>>=◌
receive_ext_csd s sending small = (
  record s {
    base = λ j. if j == sddata then ext_csd_word s.addr else s.base j;
    addr = u32 (s.addr + 4);
    read_ext_csd = if s.addr == 508 then false else s.read_ext_csd;
  },
  rw sending refl,
  omega arith,
  rw sending refl,
)

-- The words from an address on up to the end of EXT_CSD, where the mode ends.
receive_all :
    (n : ℕ) (s : Sd)
    → s.read_ext_csd ≡ true
    → s.addr + 4 * suc n ≡ 512
    → (t : Sd) × (read_words (suc n) s ≡ ok (ext_csd_from (suc n) s.addr, t))
      × (t.read_ext_csd ≡ false)
unfolding read_words ◌>>=◌
receive_all zero s sending left =
    let first = receive_ext_csd s sending (omega arith) in
    let at_end : (s.addr == 508) ≡ true = ground arith in
    (first.0, rw first.1 refl, first.3 ∙ rw at_end refl)
receive_all (suc n) s sending left =
    let first = receive_ext_csd s sending (omega arith) in
    let before : (s.addr == 508) ≡ false = ground arith in
    let rest = receive_all n first.0 (first.3 ∙ rw before refl) (omega (arith, first.2)) in
    (
      rest.0,
      rw first.1
          (rw rest.1 (ap (λ a. ok (ext_csd_word s.addr ∷ ext_csd_from (suc n) a, rest.0)) first.2)),
      rest.2,
    )

abbrev pub zeros_then : ℕ → List ℕ → List ℕ
zeros_then zero ws = ws
zeros_then (suc n) ws = 0 ∷ zeros_then n ws

-- EXT_CSD in words: the revision 2 in the word at 192, the 2^25 sectors of 512 bytes in the word at
-- 212, and zeros.
abbrev pub ext_csd : List ℕ
ext_csd = zeros_then 48 (2 ∷ zeros_then 4 (0x2000000 ∷ zeros_then 74 []))

ext_csd_lem : ext_csd_from 128 0 ≡ ext_csd
unfolding ext_csd_word
ext_csd_lem = refl

-- After SEND_EXT_CSD 128 reads of the data register give 48 zeros, the word 2, 4 zeros, the word 2^25
-- and 74 zeros, whatever the card did before, and the next access is no longer one of EXT_CSD.
pub read_words-ext_csd :
    (arg : ℕ) (s : Sd)
    → (t : Sd) × ((command 8 arg >> read_words 128) s ≡ ok (ext_csd, t)) × (t.read_ext_csd ≡ false)
unfolding command send set_base sdcard_io_handler sdcard_access sdcard_handle_cmd send_ext_csd ◌>>=◌
read_words-ext_csd arg s =
    let all =
      receive_all 127
        (record s {
          base = λ j. if j == sdcmd then 8 else if j == sdarg then arg else s.base j;
          read_ext_csd = true;
          addr = 0;
        })
        refl refl in
    (all.0, all.1 ∙ ap (λ ws. ok (ws, all.0)) ext_csd_lem, all.2)
