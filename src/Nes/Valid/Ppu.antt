-- ===== src/Nes/Valid/Ppu.antt =====
-- The registers of the picture unit: every access returns, and keeps the state well-formed.
use riscv32_cpu.Base.{
  ℕ, ◌/◌, ◌%◌, ◌^◌, ◌<◌, bit_and, ◌≡◌, refl, Bool, true, false, arith, lt→ltb, ◌==◌, if◌then◌else◌,
}
use riscv32_cpu.Word.{u8, u16}
use riscv32_cpu.Word.Bits.{bit_and_mask, bit_or-add}
use riscv32_cpu.Word.Digits.{bit_xor-lt}
use riscv32_cpu.Host.Access.{IsBytes}
use riscv32_cpu.Machine.{Bytes, update}
use riscv32_cpu.State.{get, ◌>>=◌, ◌>>◌}
use riscv32_cpu.State.Total.{
  Returns, Returns-then, Total, Total-then, Total-get, Total-pure, Total-put, Total-if,
}
use riscv32_cpu.Nes.{PpuState, Nes, N}
use riscv32_cpu.Nes.Ppu.{
  ppu_get_real_ram_address, ppu_ram_read, ppu_ram_write, set_ppu, read_status, read_oam, read_vram,
  mask_ppuaddr, ppuio_read, ppu_sprram_write, write_scroll, write_addr, write_vram, set_latch,
  write_register, ppuio_write, ppu_set_in_vblank, ppu_set_sprite_0_hit,
}
use riscv32_cpu.Nes.Valid.{IsPpu, IsNes}

-- An address below 0x4000 stays in the memory.
real_lem : (address : ℕ) → address < 0x4000 → ppu_get_real_ram_address (u16 address) < 0x4000
unfolding ppu_get_real_ram_address
real_lem address low = ground (
  arith,
  bit_or-add 5 (0x3f00 / 32) (bit_and (u16 address) 0x1f)
      (omega (arith, bit_and_mask 5 (u16 address))),
  bit_and_mask 5 (u16 address),
)

pub update-IsBytes : (m : Bytes) (i v : ℕ) → IsBytes m → IsBytes (update m i (u8 v))
unfolding update
update-IsBytes m i v h j = ground (arith, h j)

set_ppu-Total : (ppu : PpuState) → IsPpu ppu → Total IsNes (set_ppu ppu) (λ a. Unit)
unfolding set_ppu
set_ppu-Total ppu h = Total-get _ λ s w. Total-put _ (w.0, h, w.2, w.3)

ppu_ram_read-Total :
    (address : ℕ) → address < 0x4000 → Total IsNes (ppu_ram_read address) (λ a. Unit)
unfolding ppu_ram_read
ppu_ram_read-Total address low =
    Total-get _ λ s w. rw (lt→ltb _ _ (real_lem address low)) (Total-pure _)

ppu_ram_write-Total :
    (address v : ℕ) → address < 0x4000 → Total IsNes (ppu_ram_write address v) (λ a. Unit)
unfolding ppu_ram_write
ppu_ram_write-Total address v low = Total-get _ λ s w. rw (lt→ltb _ _ (real_lem address low)) (
    Total-put _ (
      w.0,
      record {
        oamaddr = w.1.oamaddr;
        ppuaddr = w.1.ppuaddr;
        mirroring_xor = w.1.mirroring_xor;
        sprram = w.1.sprram;
        ram = update-IsBytes s.ppu.ppu_ram _ v w.1.ram;
      },
      w.2,
      w.3,
    ))

-- The call from a state whose address is in the memory, and what a test leads to.
Returns-if :
    {A : Type 0} (b : Bool) (m k : N A) (s : Nes)
    → Returns IsNes (λ a. Unit) (m s)
    → Returns IsNes (λ a. Unit) (k s)
    → Returns IsNes (λ a. Unit) ((if b then m else k) s)
Returns-if true m k s hm hk = hm
Returns-if false m k s hm hk = hk

mask_lem : (a : ℕ) → bit_and a 0x3fff ≡ a % 2 ^ 14
mask_lem a = bit_and_mask 14 a

-- The address is masked before every access.
Total-mask :
    {A : Type 0} (k : N A)
    → ((s : Nes) → IsNes s → s.ppu.ppuaddr < 0x4000 → Returns IsNes (λ a. Unit) (k s))
    → Total IsNes (mask_ppuaddr >> k) (λ a. Unit)
unfolding mask_ppuaddr set_ppu ◌>>=◌
Total-mask k h = record {
  at = λ s w.
      let low : bit_and s.ppu.ppuaddr 0x3fff < 0x4000 = rw (mask_lem s.ppu.ppuaddr) (omega arith) in
      h _
        (
          w.0,
          record {
            oamaddr = w.1.oamaddr;
            ppuaddr = omega (arith, low);
            mirroring_xor = w.1.mirroring_xor;
            sprram = w.1.sprram;
            ram = w.1.ram;
          },
          w.2,
          w.3,
        )
        low;
}

read_status-Total : Total IsNes read_status (λ a. Unit)
unfolding read_status ppu_set_in_vblank ppu_set_sprite_0_hit
read_status-Total = Total-get _ λ s w.
    Total-then _ _
      (set_ppu-Total _ (record {
        oamaddr = w.1.oamaddr;
        ppuaddr = w.1.ppuaddr;
        mirroring_xor = w.1.mirroring_xor;
        sprram = w.1.sprram;
        ram = w.1.ram;
      }))
      (λ _. Total-pure _)

-- The same record with another latch or another flag.
same-IsPpu :
    {t : PpuState} (ppu : PpuState)
    → IsPpu ppu
    → t.oamaddr ≡ ppu.oamaddr
    → t.ppuaddr ≡ ppu.ppuaddr
    → t.mirroring_xor ≡ ppu.mirroring_xor
    → t.ppu_sprram ≡ ppu.ppu_sprram
    → t.ppu_ram ≡ ppu.ppu_ram
    → IsPpu t
same-IsPpu ppu h oam addr xor spr ram = record {
  oamaddr = rw oam h.oamaddr;
  ppuaddr = rw addr h.ppuaddr;
  mirroring_xor = rw xor h.mirroring_xor;
  sprram = rw spr h.sprram;
  ram = rw ram h.ram;
}

read_oam-Total : Total IsNes read_oam (λ a. Unit)
unfolding read_oam
read_oam-Total = Total-get _ λ s w.
    Total-then _ _ (set_ppu-Total _ (same-IsPpu s.ppu w.1 refl refl refl refl refl))
      (λ _. Total-pure _)

get-at :
    {A : Type 0} (k : Nes → N A) (s : Nes)
    → Returns IsNes (λ a. Unit) (k s s)
    → Returns IsNes (λ a. Unit) ((get >>= k) s)
unfolding ◌>>=◌
get-at k s h = h

with_ppuaddr :
    (ppu : PpuState) (v : ℕ) (rest : PpuState)
    → IsPpu ppu
    → rest ≡ record ppu { ppuaddr = u16 v }
    → IsPpu rest
with_ppuaddr ppu v rest h e = rw e (record {
  oamaddr = h.oamaddr;
  ppuaddr = omega arith;
  mirroring_xor = h.mirroring_xor;
  sprram = h.sprram;
  ram = h.ram;
})

-- A read of the memory, as the rest of read_vram sees it.
read_vram-at :
    (s : Nes) → IsNes s → s.ppu.ppuaddr < 0x4000 → Returns IsNes (λ a. Unit) (read_vram s)
unfolding read_vram
read_vram-at s w low = get-at _ s (
    (Total-then _ _ (ppu_ram_read-Total s.ppu.ppuaddr low) λ v.
        Total-then _ _ (set_ppu-Total _ (same-IsPpu s.ppu w.1 refl refl refl refl refl)) λ _.
          Total-get _ λ t u.
            Total-then _ _
              (Total-if t.ppu.ppu_2007_first_read _ _
                (set_ppu-Total _ (same-IsPpu t.ppu u.1 refl refl refl refl refl))
                (set_ppu-Total _ (with_ppuaddr t.ppu _ _ u.1 refl)))
              (λ _. Total-pure v)).at
      s w)

pub ppuio_read-Total : (address : ℕ) → Total IsNes (ppuio_read address) (λ a. Unit)
unfolding ppuio_read
ppuio_read-Total address =
    let register = bit_and address 7 in
    Total-mask _ λ s w low. Returns-if (register == 2) _ _ s (read_status-Total.at s w) (
      Returns-if (register == 4) _ _ s (read_oam-Total.at s w)
        (Returns-if (register == 7) _ _ s (read_vram-at s w low) ((Total-pure 0xff).at s w)))

pub ppu_sprram_write-Total : (v : ℕ) → Total IsNes (ppu_sprram_write v) (λ a. Unit)
unfolding ppu_sprram_write
ppu_sprram_write-Total v = Total-get _ λ s w. set_ppu-Total _ (record {
  oamaddr = omega arith;
  ppuaddr = w.1.ppuaddr;
  mirroring_xor = w.1.mirroring_xor;
  sprram = update-IsBytes s.ppu.ppu_sprram s.ppu.oamaddr v w.1.sprram;
  ram = w.1.ram;
})

write_scroll-Total : (v : ℕ) → Total IsNes (write_scroll v) (λ a. Unit)
unfolding write_scroll
write_scroll-Total v = Total-get _ λ s w.
    Total-if s.ppu.scroll_received_x _ _
      (set_ppu-Total _ (same-IsPpu s.ppu w.1 refl refl refl refl refl))
      (set_ppu-Total _ (same-IsPpu s.ppu w.1 refl refl refl refl refl))

write_addr-Total : (v : ℕ) → Total IsNes (write_addr v) (λ a. Unit)
unfolding write_addr
write_addr-Total v = Total-get _ λ s w.
    Total-if s.ppu.addr_received_high_byte _ _
      (set_ppu-Total _ (record {
        oamaddr = w.1.oamaddr;
        ppuaddr = omega arith;
        mirroring_xor = w.1.mirroring_xor;
        sprram = w.1.sprram;
        ram = w.1.ram;
      }))
      (set_ppu-Total _ (same-IsPpu s.ppu w.1 refl refl refl refl refl))

write_vram-at :
    (v : ℕ) (s : Nes)
    → IsNes s
    → s.ppu.ppuaddr < 0x4000
    → Returns IsNes (λ a. Unit) (write_vram v s)
unfolding write_vram
write_vram-at v s w low =
    let mirrored = bit_xor-lt 14 s.ppu.ppuaddr s.ppu.mirroring_xor low w.1.mirroring_xor in
    get-at _ s (
      (Total-if _ _ _
          (Total-then _ _ (ppu_ram_write-Total _ v mirrored) (λ _. ppu_ram_write-Total _ v low))
          (ppu_ram_write-Total _ v low)).at
        s w)

set_latch-Total : (v : ℕ) → Total IsNes (set_latch v) (λ a. Unit)
unfolding set_latch
set_latch-Total v =
    Total-get _ λ s w. set_ppu-Total _ (same-IsPpu s.ppu w.1 refl refl refl refl refl)

write_register-at :
    (register v : ℕ) (s : Nes)
    → IsNes s
    → s.ppu.ppuaddr < 0x4000
    → Returns IsNes (λ a. Unit) (write_register register v s)
unfolding write_register
write_register-at register v s w low = get-at _ s (
    Returns-if (register == 0) _ _ s
      (Returns-if s.ppu.ready _ _ s
        ((set_ppu-Total _ (same-IsPpu s.ppu w.1 refl refl refl refl refl)).at s w)
        ((Total-pure tt).at s w))
      (Returns-if (register == 1) _ _ s
        (Returns-if s.ppu.ready _ _ s
          ((set_ppu-Total _ (same-IsPpu s.ppu w.1 refl refl refl refl refl)).at s w)
          ((Total-pure tt).at s w))
        (Returns-if (register == 3) _ _ s
          ((set_ppu-Total _ (record {
            oamaddr = omega arith;
            ppuaddr = w.1.ppuaddr;
            mirroring_xor = w.1.mirroring_xor;
            sprram = w.1.sprram;
            ram = w.1.ram;
          })).at
            s w)
          (Returns-if (register == 4) _ _ s ((ppu_sprram_write-Total v).at s w) (
            Returns-if (register == 5) _ _ s ((write_scroll-Total v).at s w) (
              Returns-if (register == 6) _ _ s
                (Returns-if s.ppu.ready _ _ s ((write_addr-Total v).at s w)
                  ((Total-pure tt).at s w))
                (Returns-if (register == 7) _ _ s (write_vram-at v s w low)
                  ((Total-pure tt).at s w))))))))

pub ppuio_write-Total : (address v : ℕ) → Total IsNes (ppuio_write address v) (λ a. Unit)
unfolding ppuio_write
ppuio_write-Total address v = Total-then _ _ (set_latch-Total v) λ _. Total-mask _ λ s w low.
    Returns-then _ _ s (write_register-at (bit_and address 7) v s w low) (λ _. set_latch-Total v)
