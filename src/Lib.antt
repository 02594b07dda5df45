-- ===== src/Lib.antt =====
-- Two programs of the repository. The NEMU emulator of CODE/nemu, with its RISC-V guest (and the
-- decoders of two others), loads a guest's image into an array, fetches and decodes one instruction
-- after another, and lets the guest talk to devices through memory-mapped regions, under the control
-- of a debugger. LiteNES, of CODE/am-kernels/kernels/litenes, is a guest program that emulates a
-- game console: the 6502 processor, its memory and cartridge, the picture unit and the joystick.
--
-- A program's global variables are one record, Machine in Machine.antt and Nes in Nes.antt, and a C
-- function over them is a function of the state monad of State.antt, M or N, which returns a value
-- and the new state or ends the process with a Fault (Fault.antt): a failed assertion, a panic, an
-- access outside the memory, an overlap of regions, or an access that C leaves undefined.
-- State/Gives.antt has the rules for "whenever the call returns", and State/Total.antt those for
-- "the call returns"; Machine/Valid.antt and Nes/Valid.antt have the well-formed states.
--
-- The files and the code that they model, by paths below CODE/nemu:
--   Word, Word/...: the macros BITMASK, BITS and SEXT of include/macro.h, and the machine words
--   Pattern, Pattern/...: pattern_decode and the test of INSTPAT in include/cpu/decode.h; Pattern/Spec
--     describes a pattern without the decoder
--   Host, Host/Access: include/memory/host.h
--   Memory/Range, Memory/Paddr, Memory/Paddr/...: include/memory/paddr.h, src/memory/paddr.c,
--     src/memory/vaddr.c and include/cpu/ifetch.h
--   Device/Timer: src/utils/timer.c
--   Device/Keyboard, Device/Keyboard/Queue: src/device/keyboard.c
--   Device/Handlers: the callbacks of serial.c, timer.c, keyboard.c and audio.c in src/device
--   Device/Map, Device/Map/Space: src/device/io/map.c and include/device/map.h
--   Device/Mmio, Device/Mmio/Disjoint: src/device/io/mmio.c
--   Device/Update: device_update of src/device/device.c
--   Device/Init, Device/Init/Regions: init_device of src/device/device.c, the devices' init functions,
--     and what they call of src/device/alarm.c
--   Isa/Hostcall: src/engine/interpreter/hostcall.c
--   Isa/Instpat: the macro INSTPAT of include/cpu/decode.h
--   Isa/Riscv32, Isa/Riscv32/...: src/isa/riscv32; Isa/Riscv32/Spec describes the instructions as the
--     ISA manual does, and Isa/Riscv32/Boot is init.c
--   Isa/Mips32, Isa/Loongarch32r, and Boot below each: inst.c and init.c of src/isa/mips32 and
--     src/isa/loongarch32r
--   Exec, Exec/...: src/cpu/cpu-exec.c and src/utils/state.c; Exec/Steps is about one
--     round of the loop, and Exec/Program about a program of the manual's instructions
--   Device/Sdcard, Device/Sdcard/Transfer, Device/Sdcard/ExtCsd: src/device/sdcard.c, and a driver of it
--   Device/Alarm, Device/Pio: src/device/alarm.c and src/device/io/port-io.c
--   Difftest, Difftest/CatchUp: src/cpu/difftest/dut.c, src/isa/riscv32/difftest/dut.c, and the loop
--     of src/cpu/cpu-exec.c with the checks
--   Monitor/Sdb, Monitor/Sdb/...: the debugger's loop, src/monitor/sdb/sdb.c, over the strings of
--     Monitor/Text
--   Monitor/Watchpoint, Monitor/Expr, Monitor/Expr/Printed: watchpoint.c and expr.c of src/monitor/sdb
--   Monitor/Start, Monitor/Start/...: src/monitor/monitor.c, src/nemu-main.c and
--     src/engine/interpreter/init.c, with what they call of init_mem, init_log, init_rand and init_disasm
--   Klib, Klib/Atoi: rand, srand and atoi of CODE/abstract-machine/klib/src/stdlib.c, for a 32-bit guest
--   Nes/Bit, Nes/Cpu, Nes/Cpu/..., Nes/Memory, Nes/Mmc, Nes/Ppu, Nes/Psg, Nes/Rom: common.c, cpu.c and
--     cpu-addressing.c, memory.c, mmc.c, ppu.c, psg.c and fce.c of CODE/am-kernels/kernels/litenes/src.
--     Nes/Ppu/Render, Nes/Ppu/Sprites and Nes/Cycle are the rendering of ppu.c and draw of fce.c.
--     Nes/Cpu/Table holds the instruction tables, Nes/Cpu/Ops the instructions, Nes/Cpu/Run the loop;
--     Nes/Cpu/Flags, Adder, Subtractor, Compare, Stack, Decode and Cycles, Nes/Memory/Ram and Dma,
--     Nes/Ppu/Vram and Ports, Nes/Rom/Load and Boot, and Nes/Valid/... hold the proofs
--   Base: the shared names; Tests: concrete runs
-- Definitions keep the C names. A name of a C macro or a part of a C function has a name of its own
-- where the code has none, and a comment says which.
--
-- How the parts interact: main calls init_monitor, which parses the arguments, fills the memory,
-- resets the guest and loads its image, and then the loop of the debugger, whose commands c and si
-- call cpu_exec and whose command q ends it; main returns the verdict of is_exit_status_bad.
-- cpu_exec runs execute, each round of which calls isa_exec_once; that fetches through inst_fetch,
-- decodes with the table of patterns, and reads and writes through vaddr_read and vaddr_write. An
-- address outside the memory goes to mmio_read and mmio_write if the build has devices, which look
-- the region up and call the device's callback; device_update runs after each instruction. In
-- LiteNES fce_load_rom fills the cartridge and fce_init starts the units; cpu_run reads an opcode,
-- looks it up in the tables, and calls its addressing mode and its instruction, which reach RAM, the
-- picture unit, the joystick and the cartridge through memory_readb and memory_writeb.
--
-- Numbers are natural numbers with the wrap-around of the C type written out. A byte array is a
-- function from offsets to bytes, with its size where the access is made. Loops are recursions on
-- the list or the count that bounds them in C: execute on its argument, the pattern decoder on the
-- 64 characters that its macro unrolls. The counts of instructions that cpu_exec takes, of type
-- uint64_t, are natural numbers without a bound. Two loops have fuel. That of cpu_run counts cycles:
-- each instruction of the tables takes one or more, so as many rounds as cycles are enough. That of
-- make_token gets one round more than the text has characters, which is enough where each match
-- takes one or more. The debugger's loop is a recursion on the list of the lines that are typed.
--
-- Parameters: CONFIG_DEVICE, on which paddr.c and cpu-exec.c depend; whether the disassembler of the
-- trace, a library outside the repository, knows a word; the readings of the host's clock; the
-- scancodes of its keys; the events of its window; readline, getopt_long, strtoull, the regular
-- expressions, the files, the signal handler and the timer of the host, which are the fields of the
-- record System or arguments; parse_elf, which the repository declares and does not define; and the
-- reference of the differential testing. The other options are those of include/config/auto.conf:
-- RV32, CONFIG_RT_CHECK and CONFIG_ITRACE on, CONFIG_DIFFTEST off but in Difftest.
--
-- Not modelled: text output and logs; the loading of the differential testing's library, and its
-- calls for a build with devices; the opening of the host's window by init_screen; the start of the
-- SD card; the target of the abstract machine; the x86 instruction set; the tools; of LiteNES the
-- frame loop and the output of the canvas; and outside the two programs the rest of the abstract
-- machine, the other kernels and the NES emulator FCEUX, a copy of another project.
pub mod Base
pub mod Fault
pub mod Word
pub mod State
pub mod Pattern
pub mod Machine
pub mod Host
pub mod Memory
pub mod Device
pub mod Isa
pub mod Exec
pub mod Difftest
pub mod Monitor
pub mod Klib
pub mod Nes
pub mod Tests
