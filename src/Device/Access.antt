-- ===== src/Device/Access.antt =====
-- Reads and writes through the maps keep the state well-formed, and a read gives a word.
use riscv32_cpu.Base.{ℕ, true, Option, none, some}
use riscv32_cpu.Host.{host_read, host_write}
use riscv32_cpu.Host.Access.{IsBytes, host_read-lt, host_write-IsBytes}
use riscv32_cpu.Machine.{Bytes, IoMap, Machine, lift, put}
use riscv32_cpu.State.Gives.{
  Gives, Any, Gives-bind, Gives-bind_get, Gives-bind_any, Gives-put, Gives-lift, gives_rules,
}
use riscv32_cpu.Machine.Valid.{IsValid, IsWord, HasWords}
use riscv32_cpu.Device.Valid.{invoke_callback-Gives}
use riscv32_cpu.Device.Map.{io_space_max, check_bound, map_read, map_write}
use riscv32_cpu.Device.Mmio.{mmio_read, mmio_write}

check_bound-Gives : (m : Option IoMap) (addr : ℕ) → Gives IsValid (check_bound m addr) Any
unfolding check_bound
check_bound-Gives none addr = search gives_rules
check_bound-Gives (some map) addr = search gives_rules

read_space-Gives :
    (s : Machine) (offset len : ℕ)
    → IsValid s
    → Gives IsValid (lift (host_read s.io.io_space io_space_max offset len)) IsWord
read_space-Gives s offset len h =
    Gives-lift IsWord _ (λ v e. host_read-lt s.io.io_space io_space_max offset len v h.io_bytes e)

pub map_read-Gives : (addr len : ℕ) (m : Option IoMap) → Gives IsValid (map_read addr len m) IsWord
unfolding map_read
map_read-Gives addr len m =
    search (gives_rules, check_bound-Gives, invoke_callback-Gives HasWords, read_space-Gives) depth
      12

write_space-Gives :
    (s : Machine) (offset len v : ℕ)
    → IsValid s
    → Gives IsValid (lift (host_write s.io.io_space io_space_max offset len v)) IsBytes
write_space-Gives s offset len v h =
    Gives-lift IsBytes _
      (λ k e. host_write-IsBytes s.io.io_space io_space_max offset len v k h.io_bytes e)

put_space-Gives :
    (s : Machine) (bytes : Bytes)
    → IsValid s
    → IsBytes bytes
    → Gives IsValid (put (record s { io = record (s.io) { io_space = bytes } })) Any
put_space-Gives s bytes h is_bytes =
    Gives-put _ (record { cpu_part = h.cpu_part; pmem_bytes = h.pmem_bytes; io_bytes = is_bytes })

pub map_write-Gives :
    (addr len v : ℕ) (m : Option IoMap) → Gives IsValid (map_write addr len v m) Any
unfolding map_write
map_write-Gives addr len v m = Gives-bind_any _ _ (search gives_rules) λ _.
    Gives-bind_any _ _ (check_bound-Gives m addr) λ map. Gives-bind_get _ λ s h.
      Gives-bind _ _ (write_space-Gives s _ len v h) λ bytes is_bytes.
        Gives-bind_any _ _ (put_space-Gives s bytes h is_bytes)
          (λ _. invoke_callback-Gives HasWords map.callback _ len true)

pub mmio_read-Gives : (addr len : ℕ) → Gives IsValid (mmio_read addr len) IsWord
unfolding mmio_read
mmio_read-Gives addr len = search (gives_rules, map_read-Gives)

pub mmio_write-Gives : (addr len v : ℕ) → Gives IsValid (mmio_write addr len v) Any
unfolding mmio_write
mmio_write-Gives addr len v = search (gives_rules, map_write-Gives)
