-- ===== src/Nes/Valid/Memory.antt =====
-- The address space: every access returns, and keeps the state well-formed.
use riscv32_cpu.Base.{ℕ, zero, suc, ◌≡◌, ◌==◌, ne→not_==, false}
use riscv32_cpu.State.Total.{Total, Total-then, Total-get, Total-pure, Total-put, total_rules}
use riscv32_cpu.Nes.Psg.{read_button, psgio_read, psgio_write}
use riscv32_cpu.Nes.Mmc.{mmc_read, mmc_write}
use riscv32_cpu.Nes.Memory.{
  cpu_ram_read, cpu_ram_write, memory_readb, dma, memory_writeb, memory_readw, memory_writew,
}
use riscv32_cpu.Nes.Valid.{IsNes}
use riscv32_cpu.Nes.Valid.Ppu.{
  update-IsBytes, ppuio_read-Total, ppuio_write-Total, ppu_sprram_write-Total,
}

cpu_ram_read-Total : (address : ℕ) → Total IsNes (cpu_ram_read address) (λ a. Unit)
unfolding cpu_ram_read
cpu_ram_read-Total address = search total_rules

cpu_ram_write-Total : (address v : ℕ) → Total IsNes (cpu_ram_write address v) (λ a. Unit)
unfolding cpu_ram_write
cpu_ram_write-Total address v =
    Total-get _ λ s w. Total-put _ (w.0, w.1, w.2, update-IsBytes s.cpu_ram _ v w.3)

read_button-Total : (p : ℕ) → Total IsNes (read_button p) (λ a. Unit)
unfolding read_button
read_button-Total p = Total-get _ λ s w. Total-then _ _ (Total-put _ w) λ _. search total_rules

psgio_read-Total : (address : ℕ) → Total IsNes (psgio_read address) (λ a. Unit)
unfolding psgio_read
psgio_read-Total address = Total-get _ λ s w. search (total_rules, read_button-Total)

psgio_write-Total : (address v : ℕ) → Total IsNes (psgio_write address v) (λ a. Unit)
unfolding psgio_write
psgio_write-Total address v = Total-get _ λ s w. Total-put _ w

mmc_read-Total : (address : ℕ) → Total IsNes (mmc_read address) (λ a. Unit)
unfolding mmc_read
mmc_read-Total address = search total_rules

mmc_write-Total : (address v : ℕ) → Total IsNes (mmc_write address v) (λ a. Unit)
unfolding mmc_write
mmc_write-Total address v = Total-get _ λ s w.
    let other : (s.mmc.mmc_id == 3) ≡ false = ne→not_== _ _ w.2.mapper in
    rw other (
      Total-then _ _ (Total-pure tt) λ _. Total-get _ λ t u. Total-put _ (
        u.0,
        u.1,
        record { mapper = u.2.mapper; memory = update-IsBytes t.mmc.memory _ v u.2.memory },
        u.3,
      ))

pub memory_readb-Total : (address : ℕ) → Total IsNes (memory_readb address) (λ a. Unit)
unfolding memory_readb
memory_readb-Total address =
    search (total_rules, cpu_ram_read-Total, ppuio_read-Total, psgio_read-Total, mmc_read-Total)

dma-Total : (page n : ℕ) → Total IsNes (dma page n) (λ a. Unit)
unfolding dma
dma-Total page zero = Total-pure tt
dma-Total page (suc n) =
    Total-then _ _ (cpu_ram_read-Total _)
      λ v. Total-then _ _ (ppu_sprram_write-Total v) (λ _. dma-Total page n)

pub memory_writeb-Total : (address v : ℕ) → Total IsNes (memory_writeb address v) (λ a. Unit)
unfolding memory_writeb
memory_writeb-Total address v =
    search
      (
        total_rules, dma-Total, cpu_ram_write-Total, ppuio_write-Total, psgio_write-Total,
        mmc_write-Total,
      )
      depth 12

pub memory_readw-Total : (address : ℕ) → Total IsNes (memory_readw address) (λ a. Unit)
unfolding memory_readw
memory_readw-Total address =
    Total-then _ _ (memory_readb-Total _)
      λ low. Total-then _ _ (memory_readb-Total _) (λ high. Total-pure _)

pub memory_writew-Total : (address v : ℕ) → Total IsNes (memory_writew address v) (λ a. Unit)
unfolding memory_writew
memory_writew-Total address v =
    Total-then _ _ (memory_writeb-Total _ _) (λ _. memory_writeb-Total _ _)
