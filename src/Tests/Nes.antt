-- ===== src/Tests/Nes.antt =====
-- Runs of the theorems on LiteNES, and tests of its functions.
use riscv32_cpu.Base.{
  ℕ, ◌+◌, ◌-◌, ◌*◌, ◌%◌, ◌^◌, true, false, ◌≡◌, refl, arith, ◌==◌, leb, if◌then◌else◌, some,
}
use riscv32_cpu.Fault.{ok}
use riscv32_cpu.Host.Access.{IsBytes}
use riscv32_cpu.Machine.{Bytes, update}
use riscv32_cpu.State.{pure, get, put, bind_result, ◌>>=◌}
use riscv32_cpu.Nes.{Nes}
use riscv32_cpu.Nes.Bit.{common_bit_set}
use Prim.Native.Nat.{bit_xor}
use riscv32_cpu.Nes.Cpu.{
  carry_bp, zero_bp, overflow_bp, negative_bp, cpu_set_pc, cpu_stack_pushw, cpu_stack_popw,
}
use riscv32_cpu.Nes.Cpu.Ops.{cpu_op_adc, cpu_op_sbc, cpu_compare}
use riscv32_cpu.Nes.Cpu.Adder.{sum_of, overflows, adc-adds}
use riscv32_cpu.Nes.Cpu.Subtractor.{sbc-complements}
use riscv32_cpu.Nes.Cpu.Compare.{compare-orders}
use riscv32_cpu.Nes.Cpu.Stack.{popw-pushw}
use riscv32_cpu.Nes.Cpu.Decode.{group_of, column_of, find_op-group}
use riscv32_cpu.Nes.Cpu.Table.{cpu_op_table, find_op}
use riscv32_cpu.Nes.Cpu.Table.Item.{Entry, Handler, bis}
use riscv32_cpu.Nes.Cpu.Address.{Mode, advance_pc, cpu_address}
use riscv32_cpu.Nes.Cpu.Ops.Extended.{cpu_op_handler}
use riscv32_cpu.Nes.Mmc.{mmc_read}
use riscv32_cpu.Nes.Cpu.Run.{cpu_step, cpu_run, fetch, cpu_op, spend}
use riscv32_cpu.Nes.Cpu.Cycles.{FetchesDefined, cpu_run-ends}
use riscv32_cpu.Nes.Memory.{memory_readb, memory_writeb}
use riscv32_cpu.Nes.Memory.Ram.{memory_readb-memory_writeb}
use riscv32_cpu.Nes.Memory.Dma.{memory_writeb-dma}
use riscv32_cpu.Nes.Ppu.{ppu_get_real_ram_address, ppuio_write}
use riscv32_cpu.Nes.Ppu.Vram.{place, ppu_get_real_ram_address-place}
use riscv32_cpu.Nes.Ppu.Ports.{ppuio_write-address-data}
use riscv32_cpu.Nes.Rom.{
  signature_matches, prg_block_count, chr_block_count, rom_type, fce_load_rom, fce_init,
}
use riscv32_cpu.Nes.Rom.Load.{two, IsGame}
use riscv32_cpu.Nes.Rom.Boot.{fce_init-fce_load_rom}
use riscv32_cpu.Nes.Valid.Run.{cpu_step-safe}
use riscv32_cpu.Nes.Valid.{IsNes}

-- A machine whose cartridge is filled with NOP.
abbrev console : Nes
console = record {
  cpu = record { pc = 0x8000; sp = 0xfd; a = 0x7f; x = 3; y = 4; p = 0x25 };
  cpu_ram = λ j. j % 0x100;
  op_value = 0x01;
  op_address = 0;
  op_cycles = 0;
  cpu_cycles = 0;
  ppu = record {
    ppuctrl = 0;
    ppumask = 0;
    ppustatus = 0xa0;
    oamaddr = 0x10;
    ppuscroll = 0;
    ppuscroll_x = 0;
    ppuscroll_y = 0;
    ppuaddr = 0;
    ppudata = 0;
    scroll_received_x = false;
    addr_received_high_byte = false;
    ready = true;
    mirroring = 1;
    mirroring_xor = 0x800;
    ppu_2007_first_read = true;
    ppu_addr_latch = 0;
    ppu_sprram = λ j. 0;
    ppu_ram = λ j. 0;
    ppu_latch = 0;
  };
  psg = record { p = 10; key_state = λ j. 0; prev_write = 0 };
  mmc = record {
    mmc_id = 0;
    mmc_chr_pages = λ i j. 0;
    mmc_chr_pages_number = 0;
    memory = λ j. 0xea;
  };
}

console-IsNes : IsNes console
console-IsNes = (
  record {
    pc = omega arith;
    sp = omega arith;
    a = omega arith;
    x = omega arith;
    y = omega arith;
    p = omega arith;
  },
  record {
    oamaddr = omega arith;
    ppuaddr = omega arith;
    mirroring_xor = omega arith;
    sprram = λ j. omega arith;
    ram = λ j. omega arith;
  },
  record { mapper = λ e. omega arith; memory = λ j. omega arith },
  λ j. omega arith,
)

cpu_step-safe_example : (cycles : ℕ) × (t : Nes) × (cpu_step console ≡ ok (cycles, t)) × IsNes t
cpu_step-safe_example = cpu_step-safe console console-IsNes

adc-adds_example :
    (t : Nes) × (cpu_op_adc console ≡ ok (tt, t))
    × (t ≡ record console { cpu = record (console.cpu) { a = t.cpu.a; p = t.cpu.p } })
    × (t.cpu.a ≡ sum_of console % 256)
    × (common_bit_set t.cpu.p carry_bp ≡ leb 256 (sum_of console))
    × (common_bit_set t.cpu.p overflow_bp ≡ overflows console)
    × (common_bit_set t.cpu.p zero_bp ≡ (sum_of console % 256 == 0))
    × (common_bit_set t.cpu.p negative_bp ≡ leb 128 (sum_of console % 256))
    × (common_bit_set t.cpu.p 2 ≡ common_bit_set console.cpu.p 2)
adc-adds_example =
    adc-adds console 2 (omega arith) (omega arith) (omega arith) (omega arith) (omega arith)

sbc-complements_example :
    cpu_op_sbc console
    ≡ bind_result
        (cpu_op_adc (record console { op_value = 255 - 1 }))
        (λ u t. ok (u, record t { op_value = 1 }))
sbc-complements_example = sbc-complements console (omega arith) (omega arith)

compare-orders_example :
    (t : Nes) × (cpu_compare 3 console ≡ ok (tt, t))
    × (t ≡ record console { cpu = record (console.cpu) { p = t.cpu.p } })
    × (common_bit_set t.cpu.p carry_bp ≡ leb 1 3)
    × (common_bit_set t.cpu.p zero_bp ≡ (3 == 1))
    × (common_bit_set t.cpu.p negative_bp ≡ leb 128 ((3 + 256 - 1) % 256))
    × (common_bit_set t.cpu.p 6 ≡ common_bit_set console.cpu.p 6)
compare-orders_example =
    compare-orders 3 6 console (omega arith) (omega arith) (omega arith) (omega arith) (omega arith)

popw-pushw_example :
    (cpu_stack_pushw 0x1234 >>= λ u. cpu_stack_popw) console
    ≡ ok
        (0x1234, record console { cpu_ram = update (update console.cpu_ram 0x1fc 0x34) 0x1fd 0x12 })
popw-pushw_example = popw-pushw console 0x1234 (omega arith) (omega arith)

memory_readb-memory_writeb_example :
    (memory_writeb 0x0805 7 >>= λ u. memory_readb 0x0005) console
    ≡ ok (7, record console { cpu_ram = update console.cpu_ram 5 7 })
memory_readb-memory_writeb_example =
    memory_readb-memory_writeb 0x0805 0x0005 7 console (omega arith) (omega arith)

memory_writeb-dma_example :
    (t : Nes) × (memory_writeb 0x4014 2 console ≡ ok (tt, t))
    × (t ≡ record console { ppu = record (console.ppu) { ppu_sprram = t.ppu.ppu_sprram } })
    × (t.ppu.ppu_sprram ((0x10 + 0xff) % 2 ^ 8)
        ≡ console.cpu_ram ((2 * 2 ^ 8 + 0xff) % 0x800) % 2 ^ 8)
memory_writeb-dma_example =
    memory_writeb-dma 2 0xff console (omega arith) (omega arith) (omega arith)

find_op-group_example :
    (e : Entry) × (find_op cpu_op_table 0x69 ≡ some e)
    × (group_of e.handler ≡ 3)
    × (column_of e.mode ≡ 2)
    × (e.in_base_set ≡ true)
find_op-group_example = find_op-group 3 2 (omega arith) (omega arith) (omega arith)

ppu_get_real_ram_address-place_example : ppu_get_real_ram_address 0x3f34 ≡ place 0x3f34
ppu_get_real_ram_address-place_example = ppu_get_real_ram_address-place 0x3f34 (omega arith)

ppuio_write-address-data_example :
    (t : Nes) × (((ppuio_write 0x2006 0x20 >>= λ u. ppuio_write 0x2006 0x05) >>= λ w.
    ppuio_write 0x2007 9)
        console
      ≡ ok (tt, t))
    × (t.ppu.ppuaddr ≡ 0x2005)
    × (t.ppu.ppu_latch ≡ 9)
    × (t.ppu.ppu_ram (place 0x2005) ≡ 9)
    × (t.ppu.ppu_ram (place (bit_xor 0x2005 0x800)) ≡ 9)
    × (t.ppu.ppu_ram 7 ≡ console.ppu.ppu_ram 7)
ppuio_write-address-data_example =
    ppuio_write-address-data console 0x20 0x05 9 7 refl refl (omega arith) (omega arith)
      (omega arith) (omega arith) (unfold place in λ e. omega arith)
      (unfold place in λ e. omega arith)

-- The file of a game: the header, with two PRG blocks, and zeros but for the reset vector 0x8000.
abbrev game : Bytes
game j =
    if j == 0
    then 0x4e
    else if j == 1
    then 0x45
    else if j == 2
    then 0x53
    else if j == 3
    then 0x1a
    else if j == 4
    then 2
    else if j == 5
    then 1
    else if j == 6
    then 1
    else if j == 0x800d
    then 0x80
    else 0

game-IsBytes : IsBytes game
game-IsBytes j = ground arith

game-IsGame : IsGame 2 game
unfolding signature_matches prg_block_count chr_block_count rom_type
game-IsGame = record { signature = refl; fits = two; prg = refl; chr = refl; mapper = refl }

fce_init-fce_load_rom_example :
    (t : Nes) × ((fce_load_rom game >>= λ r. fce_init game) console ≡ ok (tt, t))
    × IsNes t
    × (t.cpu.pc ≡ 0x8000)
    × (t.cpu.sp ≡ 0xfd)
    × (t.cpu.p ≡ 0x24)
    × (t.ppu.mirroring ≡ rom_type game % 2)
    × (t.mmc.memory (0x8000 + 0x3ffd) ≡ 0)
    × (t.mmc.memory (0xc000 + 0x3ffd) ≡ 0x80)
    × (t.ppu.ppu_ram 5 ≡ 0)
fce_init-fce_load_rom_example =
    fce_init-fce_load_rom game console 2 0x3ffd 5 game-IsBytes game-IsGame console-IsNes refl
      (omega arith) (omega arith)

-- The machine `k` bytes on, with what is left of the count of cycles.
abbrev further : ℕ → ℕ → Nes
further k left = record console {
  cpu = record (console.cpu) { pc = 0x8000 + k };
  cpu_cycles = left;
}

abbrev nop : Entry
nop = bis 0xea 2 Handler.nop Mode.implied

-- Two rounds of NOP.
console-FetchesDefined : FetchesDefined 2 console
unfolding fetch advance_pc cpu_set_pc memory_readb mmc_read find_op cpu_step cpu_op spend
    cpu_address cpu_op_handler ◌>>=◌ get put pure
console-FetchesDefined =
    FetchesDefined.round {op_code = 0xea} {cycles = 2} {e = nop} {s = console} {u = further 1 0}
      {t = further 1 (2 ^ 64 - 2)} refl refl refl
      (FetchesDefined.round {op_code = 0xea} {cycles = 2} {e = nop} {s = further 1 (2 ^ 64 - 2)}
        {u = further 2 (2 ^ 64 - 2)} {t = further 2 (2 ^ 64 - 4)} refl refl refl
        FetchesDefined.done)

cpu_run-ends_example : (t : Nes) × (cpu_run 2 6 console ≡ ok (true, t)) × IsNes t
cpu_run-ends_example = cpu_run-ends 2 6 console console-IsNes (omega arith) console-FetchesDefined
