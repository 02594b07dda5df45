-- ===== src/Nes/Rom/Boot.antt =====
-- The start of a game, from the file to the reset vector.
use riscv32_cpu.Base.{
  ℕ, zero, suc, ◌+◌, ◌-◌, ◌*◌, ◌%◌, ◌^◌, ◌<◌, bit_and, inl, inr, Bool-cases, ◌&&◌, ◌≡◌, refl, arith,
  ltb, leb,
}
use riscv32_cpu.Word.{u8, u16, u32, ◌<<<◌}
use riscv32_cpu.Word.Bits.{bit_and_mask}
use riscv32_cpu.Fault.{ok}
use riscv32_cpu.Host.Access.{IsBytes}
use riscv32_cpu.Machine.{Bytes}
use riscv32_cpu.State.{◌>>=◌}
use riscv32_cpu.Nes.{Nes}
use riscv32_cpu.Nes.Ppu.{copy_bytes}
use riscv32_cpu.Nes.Rom.{rom_type, fce_load_rom, fce_init}
use riscv32_cpu.Nes.Rom.Load.{
  Fits, one, two, IsGame, loaded_memory, started, vector, load_run, init_run, prg_lem, chr_lem,
}
use riscv32_cpu.Nes.Valid.{IsNes}

copy_bytes-IsBytes :
    (m : Bytes) (address : ℕ) (source : Bytes) (length : ℕ)
    → IsBytes m
    → IsBytes source
    → IsBytes (copy_bytes m address source length)
unfolding copy_bytes
copy_bytes-IsBytes m address source length hm hs j =
    elim (Bool-cases (leb address j && ltb j (address + length))) [
      | inl inside ↦ rw inside (hs (j - address))
      | inr outside ↦ rw outside (hm j)
    ]

shift_lem : (b : ℕ) → b < 2 → u32 (0x400 <<< u8 b) < 2 ^ 14
shift_lem zero h = omega arith
shift_lem (suc zero) h = omega arith
shift_lem (suc (suc b)) h = absurd (omega arith)

mirroring_xor_lem : (x : ℕ) → u32 (0x400 <<< u8 (bit_and x 1)) < 2 ^ 14
mirroring_xor_lem x = rw (bit_and_mask 1 x) (shift_lem (x % 2) (omega arith))

loaded_memory-IsBytes :
    {c : ℕ} (rom m : Bytes) → Fits c → IsBytes rom → IsBytes m → IsBytes (loaded_memory c rom m)
loaded_memory-IsBytes rom m one bytes w =
    copy_bytes-IsBytes _ _ _ _ (copy_bytes-IsBytes _ _ _ _ w (λ j. bytes (16 + j)))
      (λ j. bytes (16 + j))
loaded_memory-IsBytes rom m two bytes w = copy_bytes-IsBytes _ _ _ _ w (λ j. bytes (16 + j))

started-IsNes :
    (c : ℕ) (rom : Bytes) (s : Nes) → Fits c → IsBytes rom → IsNes s → IsNes (started c rom s)
started-IsNes c rom s fits bytes w = (
  record {
    pc = omega arith;
    sp = omega arith;
    a = omega arith;
    x = omega arith;
    y = omega arith;
    p = omega arith;
  },
  record {
    oamaddr = omega arith;
    ppuaddr = omega arith;
    mirroring_xor = mirroring_xor_lem (rom_type rom);
    sprram = w.1.sprram;
    ram = copy_bytes-IsBytes _ _ _ _ w.1.ram (λ j. bytes (16 + c * 0x4000 + j));
  },
  record {
    mapper = λ e. omega arith;
    memory = loaded_memory-IsBytes rom s.mmc.memory fits bytes w.2.memory;
  },
  w.3,
)

-- fce_load_rom and then fce_init on the file of a game with one or two PRG blocks, one CHR block and
-- the mapper 0, from a well-formed state with no CHR page loaded: the calls return a well-formed state;
-- the program counter is the word at the offset 0x3ffc of the last PRG block, the stack pointer 0xfd, P
-- 0x24 and the mirroring the lowest bit of `rom_type`; each byte `i` of the first PRG block stands at
-- 0x8000 + i, that of the last one at 0xc000 + i, and each byte `k` of the CHR block at `k` in the
-- memory of the picture unit.
pub fce_init-fce_load_rom :
    (rom : Bytes) (s : Nes) (c i k : ℕ)
    → IsBytes rom
    → IsGame c rom
    → IsNes s
    → s.mmc.mmc_chr_pages_number ≡ 0
    → i < 0x4000
    → k < 0x2000
    → (t : Nes) × ((fce_load_rom rom >>= λ r. fce_init rom) s ≡ ok (tt, t))
      × IsNes t
      × (t.cpu.pc
          ≡ (rom (16 + (c - 1) * 0x4000 + 0x3ffc) + rom (16 + (c - 1) * 0x4000 + 0x3ffd) * 2 ^ 8)
            % 2 ^ 16)
      × (t.cpu.sp ≡ 0xfd)
      × (t.cpu.p ≡ 0x24)
      × (t.ppu.mirroring ≡ rom_type rom % 2)
      × (t.mmc.memory (0x8000 + i) ≡ rom (16 + i))
      × (t.mmc.memory (0xc000 + i) ≡ rom (16 + (c - 1) * 0x4000 + i))
      × (t.ppu.ppu_ram k ≡ rom (16 + c * 0x4000 + k))
unfolding ◌>>=◌
fce_init-fce_load_rom rom s c i k bytes game w none hi hk =
    let cut : u16 (u16 (vector c rom)) ≡ vector c rom % 2 ^ 16 = omega arith in
    let bit : u8 (bit_and (rom_type rom) 1) ≡ rom_type rom % 2 =
      rw (bit_and_mask 1 (rom_type rom)) (omega arith) in
    let prg = prg_lem rom s.mmc.memory i game.fits hi in
    (
      started c rom s,
      rw (load_run c rom s game none) (init_run rom s game.fits),
      started-IsNes c rom s game.fits bytes w,
      cut,
      refl,
      refl,
      bit,
      prg.0,
      prg.1,
      chr_lem rom s.ppu.ppu_ram (16 + c * 0x4000) k hk,
    )
