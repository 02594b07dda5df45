-- ===== src/Tests.antt =====
-- Concrete runs: the states that the tests start from, and the tests by part.
mod Pattern
mod Memory
mod Devices
mod Isa
mod Exec
mod Klib
mod Monitor
mod Storage
mod Nes
use riscv32_cpu.Base.{ℕ, Bool, true, [], if◌then◌else◌, ◌==◌}
use riscv32_cpu.Host.{store}
use riscv32_cpu.Machine.{Machine, stop}
use riscv32_cpu.Exec.{Config}

-- A machine as the process starts it: memories of zeros, and no regions.
abbrev pub fresh : Machine
fresh = record {
  cpu = record { gpr = λ i. 0; pc = 0x80000000 };
  pmem = λ j. 0;
  nemu_state = record { state = stop; halt_pc = 0; halt_ret = 0 };
  g_nr_guest_inst = 0;
  io = record {
    io_space = λ j. 0;
    p_space = 0;
    maps = [];
    serial_base = 0;
    rtc_port_base = 0;
    i8042_data_port_base = 0;
  };
  keyboard = record { keymap = λ i. i; key_queue = λ i. 0; key_f = 1023; key_r = 1023 };
  clock = record { readings = λ i. i; calls = 0; boot_time = 0 };
  window = record { events = λ i. []; polls = 0; last = 0 };
  g_timer = 0;
  alarm_idx = 0;
  printed = [];
}

-- `lbu a0, -16(t0)`, with t0 behind the byte 42.
abbrev pub sample : Machine
sample = record fresh {
  cpu = record { gpr = λ i. if i == 5 then 0x80000020 else 0; pc = 0x80000000 };
  pmem = store (λ j. if j == 16 then 42 else 0) 0 4 0xff02c503;
}

-- A build without devices, whose disassembler knows every word.
abbrev pub plain : Config
plain = record { device = Bool.false; disassembles = λ pc inst. true }
