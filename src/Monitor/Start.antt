-- ===== src/Monitor/Start.antt =====
-- nemu/src/monitor/monitor.c, nemu/src/nemu-main.c and nemu/src/engine/interpreter/init.c, for the
-- native target, with init_mem of nemu/src/memory/paddr.c, init_log of nemu/src/utils/log.c,
-- init_rand of nemu/src/utils/timer.c and init_disasm of nemu/src/utils/disasm.c. CONFIG_DIFFTEST is
-- off, so that init_difftest is empty. The messages are left out.
pub mod Batch
pub mod Image
use riscv32_cpu.Base.{
  ℕ, ◌+◌, ◌%◌, Bool, true, false, ◌&&◌, Option, none, some, List, [], ◌∷◌, length, ltb, leb, ◌==◌,
  if◌then◌else◌,
}
use riscv32_cpu.Fault.{Fault, ok, fault}
use riscv32_cpu.Machine.{
  Bytes, update, Machine, M, pure, stop_with, lift, get, put, assert, ◌>>=◌, ◌>>◌,
}
use riscv32_cpu.Word.{u32}
use riscv32_cpu.Memory.Range.{msize, reset_vector, guest_to_host}
use riscv32_cpu.Device.Timer.{get_time_internal}
use riscv32_cpu.Device.Init.{init_device}
use riscv32_cpu.Isa.Riscv32.Boot.{init_isa}
use riscv32_cpu.Exec.{Config, is_exit_status_bad}
use riscv32_cpu.Monitor.Text.{Text}
use riscv32_cpu.Monitor.Sdb.{sdb_mainloop}
use riscv32_cpu.Monitor.Expr.{init_regex}

-- What getopt_long returns for an element of argv: a short option with its argument, the number
-- that sscanf reads in it if there is one, a 1 with an argument that is no option, or anything else.
pub data Opt : Type 0 where
  opt_b opt_other : Opt
  opt_l opt_d opt_e opt_1 : (optarg : Text) → Opt
  opt_p : (number : Option ℕ) → Opt

-- The static variables of monitor.c and the debugger's is_batch_mode.
pub record Args : Type 0 where
  pub is_batch_mode : Bool
  pub log_file : Option Text
  pub diff_so_file : Option Text
  pub img_file : Option Text
  pub elf_file : Option Text
  pub difftest_port : ℕ

abbrev pub no_args : Args
no_args = record {
  is_batch_mode = false;
  log_file = none;
  diff_so_file = none;
  img_file = none;
  elf_file = none;
  difftest_port = 1234;
}

-- Code outside the repository and the host: getopt_long, the scancodes of the keys, the lines of readline, strtoull, the files
-- that can be opened to write, the bytes of those that can be read, rand after srand, regcomp, whether
-- capstone is found with its functions, whether sigaction and setitimer return 0, and parse_elf, which the repository declares but lacks.
pub record System : Type 0 where
  pub options : List Opt
  pub keys : List ℕ
  pub lines : List Text
  pub strtoull : Text → ℕ × Text
  pub creates : Text → Bool
  pub file : Text → Option (List ℕ)
  pub next_rand : ℕ → ℕ
  pub compiles : Text → Bool
  pub finds_capstone : Bool
  pub sets_handler : Bool
  pub sets_timer : Bool
  pub parse_elf : Option Text → M (Unit {0})

unfoldable pub set_port : Option ℕ → Args → Args
set_port none a = a
set_port (some port) a = record a { difftest_port = port }

-- `none` is exit(0), after the usage.
unfoldable pub parse_args : List Opt → Args → Option Args
unfolding set_port
parse_args [] a = some a
parse_args (opt_b ∷ rest) a = parse_args rest (record a { is_batch_mode = true })
parse_args (opt_p number ∷ rest) a = parse_args rest (set_port number a)
parse_args (opt_l optarg ∷ rest) a = parse_args rest (record a { log_file = some optarg })
parse_args (opt_d optarg ∷ rest) a = parse_args rest (record a { diff_so_file = some optarg })
parse_args (opt_e optarg ∷ rest) a = parse_args rest (record a { elf_file = some optarg })
parse_args (opt_1 optarg ∷ rest) a = some (record a { img_file = some optarg })
parse_args (opt_other ∷ rest) a = none

-- srand takes the time; the seed is the argument of `next_rand` below.
unfoldable pub init_rand : M ℕ
init_rand = get_time_internal

unfoldable pub init_log : (Text → Bool) → Option Text → M (Unit {0})
init_log creates none = pure tt
init_log creates (some log_file) = assert (creates log_file)

-- CONFIG_MEM_RANDOM is on: memset stores the low byte of its argument.
unfoldable pub init_mem : ℕ → M (Unit {0})
init_mem random = do
  s ← get
  put (record s { pmem = λ j. if ltb j msize then random % 256 else s.pmem j })

-- The bytes that fread reads into the memory.
unfoldable pub copy_image : Bytes → ℕ → List ℕ → Bytes
unfolding update
copy_image m offset [] = m
copy_image m offset (b ∷ rest) = copy_image (update m offset b) (offset + 1) rest

-- fread of one item: 1, or 0 for an item of no bytes. Behind the memory it is undefined.
unfoldable pub read_image : List ℕ → M ℕ
unfolding copy_image guest_to_host
read_image [] = pure 0
read_image (b ∷ rest) = do
  s ← get
  if leb (guest_to_host reset_vector + length (b ∷ rest)) msize
      then (put (record s { pmem = copy_image s.pmem (guest_to_host reset_vector) (b ∷ rest) })
          >> pure 1)
      else stop_with Fault.undefined

unfoldable pub load_file : Option (List ℕ) → M ℕ
unfolding read_image
load_file none = stop_with Fault.assertion
load_file (some bytes) = do ret ← read_image bytes; assert (ret == 1); pure (length bytes)

unfoldable pub load_img : (Text → Option (List ℕ)) → Option Text → M ℕ
unfolding load_file
load_img file none = pure 4096
load_img file (some img_file) = load_file (file img_file)

unfoldable pub init_difftest : Option Text → ℕ → ℕ → M (Unit {0})
init_difftest ref_so_file img_size port = pure tt

module _ (c : Config) (h : System) where
  -- The pool of watchpoints, which init_wp_pool sets up as well, is read by nothing.
  unfoldable pub init_sdb : M (Unit {0})
  init_sdb = lift (init_regex h.compiles)

  unfoldable pub init_disasm : M (Unit {0})
  init_disasm = assert h.finds_capstone

  unfoldable pub init_monitor : Args → M (Unit {0})
  unfolding init_rand init_log init_mem load_img init_difftest init_sdb init_disasm
  init_monitor a = do
    seed ← init_rand
    init_log h.creates a.log_file
    h.parse_elf a.elf_file
    init_mem (h.next_rand (u32 seed))
    if c.device then init_device h.keys h.sets_handler h.sets_timer else pure tt
    init_isa
    img_size ← load_img h.file a.img_file
    init_difftest a.diff_so_file img_size a.difftest_port
    init_sdb
    init_disasm

  unfoldable pub engine_start : Args → M (Unit {0})
  engine_start a = sdb_mainloop c h.strtoull a.is_batch_mode h.lines

  unfoldable pub run : Args → M ℕ
  unfolding init_monitor engine_start
  run a = do init_monitor a; engine_start a; s ← get; pure (if is_exit_status_bad s then 1 else 0)

  unfoldable pub run_parsed : Option Args → M ℕ
  unfolding run
  run_parsed none = pure 0
  run_parsed (some a) = run a

  -- The exit status of the process.
  unfoldable pub main : M ℕ
  unfolding parse_args run_parsed
  main = run_parsed (parse_args h.options no_args)
