-- ===== src/Device/Sdcard/Transfer.antt =====
-- Transfers of words between a driver and the SD card, by the registers of nemu/src/device/sdcard.c.
use riscv32_cpu.Base.{
  ℕ, zero, suc, ◌+◌, ◌-◌, ◌*◌, ◌≤◌, ◌<◌, ◌≡◌, refl, ◌∙◌, ap, ap₂, sym, inl, max, Bool, true, false,
  some, List, [], ◌∷◌, length, leb, ◌==◌, if◌then◌else◌, arith,
}
use riscv32_cpu.Fault.{ok}
use riscv32_cpu.Word.{u32}
use riscv32_cpu.Host.{load}
use riscv32_cpu.Host.Access.{load-store, load-cong, store-outside}
use riscv32_cpu.Machine.{Bytes}
use riscv32_cpu.Machine.Valid.{IsWord}
use riscv32_cpu.State.{pure, get, ◌>>=◌, ◌>>◌}
use riscv32_cpu.Device.Sdcard.{
  sdcmd, sdarg, sddata, File, Sd, D, set_base, fseek, fread_4, fwrite_4, prepare_rw,
  sdcard_handle_cmd, move_word, data_access, sdcard_access, sdcard_io_handler,
}

-- A driver's access to a register: map_write stores the word and calls the handler, map_read calls
-- the handler and loads the word.
unfoldable pub send : ℕ → ℕ → D (Unit {0})
unfolding set_base sdcard_io_handler
send idx v = set_base idx v >> sdcard_io_handler (4 * idx) 4 true

unfoldable pub receive : ℕ → D ℕ
unfolding sdcard_io_handler
receive idx = do sdcard_io_handler (4 * idx) 4 false; s ← get; pure (s.base idx)

unfoldable pub command : ℕ → ℕ → D (Unit {0})
unfolding send
command cmd arg = send sdarg arg >> send sdcmd cmd

unfoldable pub write_words : List ℕ → D (Unit {0})
unfolding send
write_words [] = pure tt
write_words (w ∷ ws) = send sddata w >> write_words ws

unfoldable pub read_words : ℕ → D (List ℕ)
unfolding receive
read_words zero = pure []
read_words (suc n) = do w ← receive sddata; ws ← read_words n; pure (w ∷ ws)

-- The card has an open file, and the next data access is a transfer of a word to or from it.
record IsOpen (s : Sd) (f : File) (is_write : Bool) : Type 0 where
  file : s.fp ≡ some f
  transfer : s.read_ext_csd ≡ false
  direction : s.write_cmd ≡ is_write

send_word :
    (w : ℕ) (s : Sd) (f : File)
    → IsOpen s f true
    → (t : Sd) × (send sddata w s ≡ ok (tt, t)) × IsOpen t (fwrite_4 f w) true
unfolding send set_base sdcard_io_handler sdcard_access data_access move_word ◌>>=◌
send_word w s f h = (
  record s {
    base = λ j. if j == sddata then w else s.base j;
    fp = some (fwrite_4 f w);
    addr = u32 (s.addr + 4);
  },
  rw (h.transfer, h.file, h.direction) refl,
  record { file = refl; transfer = h.transfer; direction = h.direction },
)

-- Where four bytes are left to read.
receive_word :
    (s : Sd) (f : File)
    → IsOpen s f false
    → f.position + 4 ≤ f.size
    → (t : Sd) × (receive sddata s ≡ ok (load f.bytes f.position 4, t))
      × IsOpen t (record f { position = f.position + 4 }) false
unfolding receive set_base sdcard_io_handler sdcard_access data_access move_word fread_4 ◌>>=◌
receive_word s f h left =
    let inside : leb (f.position + 4) f.size ≡ true = ground arith in
    (
      record s {
        base = λ j. if j == sddata then load f.bytes f.position 4 else s.base j;
        fp = some (record f { position = f.position + 4 });
        addr = u32 (s.addr + 4);
      },
      rw (h.transfer, h.file, h.direction, inside) refl,
      record { file = refl; transfer = h.transfer; direction = h.direction },
    )

-- The commands that start a transfer at a block, to the card and from it.
start_write :
    (block : ℕ) (s : Sd) (f : File)
    → s.fp ≡ some f
    → s.read_ext_csd ≡ false
    → (t : Sd) × (command 25 block s ≡ ok (tt, t))
      × IsOpen t (record f { position = block * 512 }) true
unfolding command send set_base sdcard_io_handler sdcard_access sdcard_handle_cmd prepare_rw fseek
    ◌>>=◌
start_write block s f file transfer = (
  record s {
    base = λ j. if j == sdcmd then 25 else if j == sdarg then block else s.base j;
    fp = some (record f { position = block * 512 });
    blk_addr = block;
    addr = 0;
    write_cmd = true;
  },
  rw file refl,
  record { file = refl; transfer = transfer; direction = refl },
)

start_read :
    (block : ℕ) (s : Sd) (f : File)
    → s.fp ≡ some f
    → s.read_ext_csd ≡ false
    → (t : Sd) × (command 18 block s ≡ ok (tt, t))
      × IsOpen t (record f { position = block * 512 }) false
unfolding command send set_base sdcard_io_handler sdcard_access sdcard_handle_cmd prepare_rw fseek
    ◌>>=◌
start_read block s f file transfer = (
  record s {
    base = λ j. if j == sdcmd then 18 else if j == sdarg then block else s.base j;
    fp = some (record f { position = block * 512 });
    blk_addr = block;
    addr = 0;
    write_cmd = false;
  },
  rw file refl,
  record { file = refl; transfer = transfer; direction = refl },
)

-- The file after a list of words, and the words that follow a place of it.
abbrev put_words : File → List ℕ → File
put_words f [] = f
put_words f (w ∷ ws) = put_words (fwrite_4 f w) ws

abbrev words_at : Bytes → ℕ → ℕ → List ℕ
words_at m position zero = []
words_at m position (suc n) = load m position 4 ∷ words_at m (position + 4) n

write_words-put :
    (ws : List ℕ) (s : Sd) (f : File)
    → IsOpen s f true
    → (t : Sd) × (write_words ws s ≡ ok (tt, t)) × IsOpen t (put_words f ws) true
unfolding write_words ◌>>=◌
write_words-put [] s f h = (s, refl, h)
write_words-put (w ∷ ws) s f h =
    let first = send_word w s f h in
    let rest = write_words-put ws first.0 (fwrite_4 f w) first.2 in
    (rest.0, rw first.1 rest.1, rest.2)

read_words-at :
    (n : ℕ) (s : Sd) (f : File)
    → IsOpen s f false
    → 4 * n ≤ f.size - f.position
    → (t : Sd) × (read_words n s ≡ ok (words_at f.bytes f.position n, t))
unfolding read_words ◌>>=◌
read_words-at zero s f h left = (s, refl)
read_words-at (suc n) s f h left =
    let first = receive_word s f h (omega arith) in
    let rest =
      read_words-at n first.0 (record f { position = f.position + 4 }) first.2 (omega arith) in
    (rest.0, rw (first.1, rest.1) refl)

-- Writing goes on behind the position, and the file reaches the end of what was written.
put_words-below :
    (ws : List ℕ) (f : File) (j : ℕ) → j < f.position → (put_words f ws).bytes j ≡ f.bytes j
put_words-below [] f j below = refl
put_words-below (w ∷ ws) f j below =
    put_words-below ws (fwrite_4 f w) j (unfold fwrite_4 in omega arith)
    ∙ (unfold fwrite_4 in store-outside f.bytes f.position 4 w j (inl below))

put_words-size :
    (ws : List ℕ) (f : File)
    → (f.size ≤ (put_words f ws).size) × (4 * length ws ≤ (put_words f ws).size - f.position)
put_words-size [] f = (omega arith, omega arith)
put_words-size (w ∷ ws) f =
    let size : (fwrite_4 f w).size ≡ max f.size (f.position + 4) = unfold fwrite_4 in refl in
    let position : (fwrite_4 f w).position ≡ f.position + 4 = unfold fwrite_4 in refl in
    let rest = put_words-size ws (fwrite_4 f w) in
    (omega (arith, rest.0, size), omega (arith, rest.0, rest.1, size, position))

abbrev pub AreWords : List ℕ → Type 0
AreWords [] = Unit
AreWords (w ∷ ws) = IsWord w × AreWords ws

words_at-put :
    (ws : List ℕ) (f : File)
    → AreWords ws
    → words_at (put_words f ws).bytes f.position (length ws) ≡ ws
words_at-put [] f words = refl
words_at-put (w ∷ ws) f words =
    let position : (fwrite_4 f w).position ≡ f.position + 4 = unfold fwrite_4 in refl in
    let written : load (fwrite_4 f w).bytes f.position 4 ≡ w =
      unfold fwrite_4 in (load-store f.bytes f.position 4 w ∙ omega (arith, words.0)) in
    let kept =
      load-cong (put_words (fwrite_4 f w) ws).bytes (fwrite_4 f w).bytes f.position 4
        (λ j lo hi. put_words-below ws (fwrite_4 f w) j (omega (arith, position))) in
    ap₂ (λ x xs. x ∷ xs) (kept ∙ written)
      (ap (λ p. words_at (put_words (fwrite_4 f w) ws).bytes p (length ws)) (sym position)
        ∙ words_at-put ws (fwrite_4 f w) words.1)

pub read_words-write_words :
    (block : ℕ) (ws : List ℕ) (s : Sd) (f : File)
    → s.fp ≡ some f
    → s.read_ext_csd ≡ false
    → AreWords ws
    → (t : Sd) × ((command 25 block >> write_words ws >> command 18 block >> read_words (length ws))
          s
        ≡ ok (ws, t))
unfolding ◌>>=◌
read_words-write_words block ws s f file transfer words =
    let start : File = record f { position = block * 512 } in
    let opened = start_write block s f file transfer in
    let written = write_words-put ws opened.0 start opened.2 in
    let g = put_words start ws in
    let back : File = record g { position = block * 512 } in
    let again = start_read block written.0 g written.2.file written.2.transfer in
    let result = read_words-at (length ws) again.0 back again.2 (put_words-size ws start).1 in
    (
      result.0,
      rw (opened.1, written.1, again.1, result.1)
          (ap (λ xs. ok (xs, result.0)) (words_at-put ws start words)),
    )
