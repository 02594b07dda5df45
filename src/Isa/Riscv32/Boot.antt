-- ===== src/Isa/Riscv32/Boot.antt =====
-- nemu/src/isa/riscv32/init.c: the built-in image and the state in which a guest starts.
use riscv32_cpu.Base.{ℕ, ◌+◌, List, [], ◌∷◌}
use riscv32_cpu.Host.{store}
use riscv32_cpu.Machine.{Bytes, update, M, get, put, ◌>>=◌, ◌>>◌}
use riscv32_cpu.Memory.Range.{reset_vector, guest_to_host}

-- The words of `img`, the last one data.
abbrev pub img : List ℕ
img = 0x00000297 ∷ 0x00028823 ∷ 0x0102c503 ∷ 0x00100073 ∷ 0xdeadbeef ∷ []

-- memcpy of 4-byte words, on a little-endian host.
unfoldable pub copy_words : Bytes → ℕ → List ℕ → Bytes
copy_words m offset [] = m
copy_words m offset (word ∷ rest) = copy_words (store m offset 4 word) (offset + 4) rest

unfoldable pub restart : M (Unit {0})
unfolding update
restart = do
  s ← get
  put (record s { cpu = record { gpr = update s.cpu.gpr 0 0; pc = reset_vector } })

unfoldable pub init_isa : M (Unit {0})
unfolding copy_words guest_to_host restart
init_isa = do
  s ← get
  put (record s { pmem = copy_words s.pmem (guest_to_host reset_vector) img })
  restart
