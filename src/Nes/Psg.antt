-- ===== src/Nes/Psg.antt =====
-- am-kernels/kernels/litenes/src/psg.c: the joystick. The key codes are those of
-- abstract-machine/am/include/amdev.h for J, K, U, I, W, S, A and D.
use riscv32_cpu.Base.{
  ℕ, ◌+◌, bit_and, ◌&&◌, none, some, List, [], ◌∷◌, ltb, ◌==◌, if◌then◌else◌, get_elem?,
}
use riscv32_cpu.Word.{u8}
use riscv32_cpu.Machine.{update}
use riscv32_cpu.State.{pure, get, put, ◌>>=◌, ◌>>◌}
use riscv32_cpu.Nes.{N}

-- The array MAP; its other elements, to the index 255, are zero.
abbrev pub key_map : List ℕ
key_map = 0 ∷ 49 ∷ 50 ∷ 35 ∷ 36 ∷ 30 ∷ 44 ∷ 43 ∷ 45 ∷ 255 ∷ []

unfoldable pub map_key : ℕ → ℕ
map_key i = elim (get_elem? key_map i) [ none ↦ 0 | some k ↦ k ]

-- The button that `p++` comes to, for the first nine of the indices.
unfoldable pub read_button : ℕ → N ℕ
unfolding map_key
read_button p = do
  s ← get
  put (record s { psg = record (s.psg) { p = p + 1 } })
  if ltb p 9 then pure (u8 (s.psg.key_state (map_key (p + 1)))) else pure 0

unfoldable pub psgio_read : ℕ → N ℕ
psgio_read address = do s ← get; if address == 0x4016 then read_button s.psg.p else pure 0

unfoldable pub psgio_write : ℕ → ℕ → N (Unit {0})
psgio_write address v = do
  s ← get
  let strobe = address == 0x4016 && bit_and v 1 == 0 && s.psg.prev_write == 1
  put (record s {
    psg = record (s.psg) { p = if strobe then 0 else s.psg.p; prev_write = bit_and v 1 };
  })

-- The loop over the key events, up to the one with the code AM_KEY_NONE.
unfoldable pub psg_detect_key : List (ℕ × ℕ) → N (Unit {0})
unfolding update
psg_detect_key [] = pure tt
psg_detect_key ((keycode, keydown) ∷ rest) =
    let later = psg_detect_key rest in
    if keycode == 0 then pure tt else do
      s ← get
      put (record s { psg = record (s.psg) { key_state = update s.psg.key_state keycode keydown } })
      later

unfoldable pub psg_init : N (Unit {0})
unfolding update
psg_init = do
  s ← get
  put (record s { psg = record (s.psg) { key_state = update s.psg.key_state 0 1 } })
