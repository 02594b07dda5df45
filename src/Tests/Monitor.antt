-- ===== src/Tests/Monitor.antt =====
-- Runs of the start, of the debugger, of its tokenizer and of the differential testing.
use riscv32_cpu.Base.{
  ℕ, ◌+◌, ◌-◌, ◌^◌, ◌<◌, ◌≡◌, refl, Bool, true, false, Option, none, some, List, [], ◌∷◌, arith,
  ◌==◌, if◌then◌else◌, length, ne→not_==,
}
use riscv32_cpu.Fault.{ok}
use riscv32_cpu.Machine.{running, abort, quit, end, Machine, pure, ◌>>=◌, ◌>>◌}
use riscv32_cpu.Machine.Valid.{IsReady}
use riscv32_cpu.Memory.Range.{reset_vector, guest_to_host}
use riscv32_cpu.Memory.Paddr.{paddr_read}
use riscv32_cpu.Isa.Riscv32.Boot.{init_isa, restart}
use riscv32_cpu.Exec.{exec_round, cpu_exec, is_exit_status_bad}
use riscv32_cpu.Exec.Boot.{
  started, after_auipc, after_sb, Fetches-auipc, Fetches-sb, init_isa-cpu_exec,
}
use riscv32_cpu.Monitor.Text.{Text, strtok, skip_blanks, cut}
use riscv32_cpu.Monitor.Sdb.{run_on, read_lines, sdb_mainloop}
use riscv32_cpu.Monitor.Sdb.Valid.{sdb_mainloop-IsReady}
use riscv32_cpu.Monitor.Sdb.Session.{read_lines-q}
use riscv32_cpu.Monitor.Watchpoint.{nr_wp, WpPool, init_wp_pool, Chain, range, init_wp_pool-Chain}
use riscv32_cpu.Monitor.Expr.{Tokens, at_start, make_token}
use riscv32_cpu.Monitor.Expr.Printed.{
  plus_sign, equality, print, token_of, Matches, make_token-print,
}
use riscv32_cpu.Monitor.Start.{Args, no_args, opt_b, System, parse_args, load_img, main}
use riscv32_cpu.Monitor.Start.Batch.{main-batch}
use riscv32_cpu.Monitor.Start.Image.{load_img-image}
use riscv32_cpu.Difftest.{
  Reference, Dut, exec_times, difftest_skip_dut, without_devices, execute_checked,
}
use riscv32_cpu.Difftest.CatchUp.{start, round, difftest_skip_dut-arrives}
use riscv32_cpu.Isa.Riscv32.Spec.{auipc, sb, effect}
use riscv32_cpu.Exec.Steps.{exec_round-step}
use riscv32_cpu.Tests.{fresh, plain}
use riscv32_cpu.Tests.Exec.{booted, booted-IsReady}

-- No number is read.
abbrev no_number : Text → ℕ × Text
no_number s = (0, s)

-- A host with `--batch` on the command line, on which everything is found.
abbrev host : System
host = record {
  options = opt_b ∷ [];
  keys = [];
  lines = [];
  strtoull = no_number;
  creates = λ f. true;
  file = λ f. none;
  next_rand = λ seed. seed;
  compiles = λ r. true;
  finds_capstone = true;
  sets_handler = true;
  sets_timer = true;
  parse_elf = λ f. pure tt;
}

abbrev batch : Args
batch = record no_args { is_batch_mode = true }

main-batch_example :
    (t : Machine) × (main plain host fresh ≡ ok (0, t))
    × (t.nemu_state ≡ record { state = end; halt_pc = 0x8000000c; halt_ret = 0 })
main-batch_example =
    main-batch plain host batch fresh refl (refl, refl, refl, refl)
      (record {
        log = λ f e. refl;
        regex = (refl, refl, refl);
        capstone = refl;
        elf = λ s. unfold pure in refl;
      })
      (unfold parse_args in refl) refl refl refl

-- The built-in image, run to its end.
ran :
    (t : Machine) × ((init_isa >> cpu_exec plain (2 ^ 64 - 1)) fresh ≡ ok (tt, t))
    × (t.nemu_state ≡ record { state = end; halt_pc = 0x8000000c; halt_ret = 0 })
    × (is_exit_status_bad t ≡ false)
ran = init_isa-cpu_exec plain (2 ^ 64 - 1) fresh refl (refl, refl, refl, refl) (omega arith) refl

from_booted : cpu_exec plain (2 ^ 64 - 1) booted ≡ ok (tt, ran.0)
unfolding init_isa restart guest_to_host ◌>>=◌
from_booted = ran.1

batch_run : sdb_mainloop plain no_number true [] booted ≡ ok (tt, ran.0)
unfolding sdb_mainloop run_on ◌>>=◌
batch_run = rw from_booted refl

sdb_mainloop-IsReady_example : IsReady (ran.0)
sdb_mainloop-IsReady_example =
    sdb_mainloop-IsReady plain no_number true [] booted (ran.0) booted-IsReady batch_run

-- "info", " q now", "c"
abbrev info : Text
info = b'i' ∷ b'n' ∷ b'f' ∷ b'o' ∷ []

abbrev q_now : Text
q_now = b' ' ∷ b'q' ∷ b' ' ∷ b'n' ∷ b'o' ∷ b'w' ∷ []

abbrev c_line : Text
c_line = b'c' ∷ []

read_lines-q_example :
    (read_lines plain no_number (info ∷ q_now ∷ c_line ∷ []) fresh
      ≡ read_lines plain no_number (info ∷ q_now ∷ []) fresh)
    × (t : Machine) × (read_lines plain no_number (q_now ∷ c_line ∷ []) fresh ≡ ok (tt, t))
    × (t.nemu_state ≡ record (fresh.nemu_state) { state = quit })
    × (is_exit_status_bad t ≡ false)
read_lines-q_example =
    read_lines-q plain no_number (info ∷ []) q_now (b'n' ∷ b'o' ∷ b'w' ∷ []) (c_line ∷ []) fresh
      (unfold strtok skip_blanks cut in refl)

abbrev pool : WpPool
pool = record {
  wp_pool = λ i. record { no = 0; next = none; expr_0 = 0; old_val = 0 };
  head = none;
  free_ = none;
}

init_wp_pool-Chain_example :
    ((init_wp_pool pool).head ≡ none)
    × Chain (init_wp_pool pool) (init_wp_pool pool).free_ (range nr_wp 0)
    × ((i : ℕ) → i < nr_wp → ((init_wp_pool pool).wp_pool i).no ≡ i)
init_wp_pool-Chain_example = init_wp_pool-Chain pool

-- A matcher of the three rules that looks at the start of the string only, told apart by the second
-- character of a rule.
abbrev match_at : ℕ → ℕ → ℕ → Option (ℕ × ℕ)
match_at wanted c len = if c == wanted then some (0, len) else none

abbrev matcher : Text → Text → Option (ℕ × ℕ)
matcher r [] = none
matcher [] (c ∷ s) = none
matcher (first ∷ r) (c ∷ s) =
    if first == b' '
    then match_at b' ' c 1
    else (if first == 92 then match_at b'+' c 1 else match_at b'=' c 2)

matcher-Matches : Matches matcher
matcher-Matches = record {
  plus_sign = λ s. refl;
  equality = λ s. refl;
  no_plus = λ c s other. unfold at_start in rw (ne→not_== c b'+' other) refl;
  no_blank = λ c s other. unfold at_start in rw (ne→not_== c b' ' other) refl;
}

abbrev no_tokens : Tokens
no_tokens = record { tokens = λ i. record { type = 0; str = [] }; nr_token = 5 }

make_token-print_example :
    (t : Tokens) × (make_token matcher (print (plus_sign ∷ equality ∷ [])) no_tokens
      ≡ ok (some true, t))
    × (t.nr_token ≡ length (plus_sign ∷ equality ∷ []))
    × (t.tokens 1 ≡ token_of equality)
make_token-print_example =
    make_token-print matcher (plus_sign ∷ equality ∷ []) no_tokens 1 equality matcher-Matches
      (omega arith) refl

-- An image of three bytes.
abbrev three : List ℕ
three = 7 ∷ 8 ∷ 9 ∷ []

load_img-image_example :
    (t : Machine) × (load_img (λ f. some three) (some info) fresh ≡ ok (length three, t))
    × (paddr_read false (reset_vector + 2) 1 t ≡ ok (9, t))
    × (t.pmem 100 ≡ fresh.pmem 100)
    × (t ≡ record fresh { pmem = t.pmem })
load_img-image_example =
    load_img-image false (λ f. some three) info three fresh 2 9 100 refl (omega arith) refl
      (omega arith)

-- A reference that counts in words, and the image, whose second instruction arrives where it is after
-- two steps.
abbrev counter : Reference ℕ
counter = record {
  exec = λ n. n + 4;
  to_dut = λ n. record { gpr = λ i. 0; pc = n };
  to_ref = λ cpu n. cpu.pc;
}

abbrev on : Machine
on = record fresh { nemu_state = record (fresh.nemu_state) { state = running } }

abbrev compared : Dut ℕ
compared = record {
  machine = started on;
  ref = 0x80000000;
  is_skip_ref = false;
  skip_dut_nr_inst = 0;
}

knows_all : ℕ → ℕ → Bool
knows_all pc inst = true

auipc_round : exec_round (without_devices knows_all) (started on) ≡ ok (tt, after_auipc on)
unfolding after_auipc knows_all
auipc_round =
    exec_round-step (without_devices knows_all) (auipc 0 5) (started on) (Fetches-auipc on) refl

sb_round : exec_round (without_devices knows_all) (after_auipc on) ≡ ok (tt, after_sb on)
unfolding after_sb knows_all
sb_round =
    exec_round-step (without_devices knows_all) (sb 16 0 5) (after_auipc on) (Fetches-sb on) refl

difftest_skip_dut-arrives_example :
    (difftest_skip_dut counter 2 5 >> execute_checked counter knows_all 9) compared
    ≡ ok (
      tt,
      record compared {
        machine = record (after_sb on) {
          nemu_state = record ((after_sb on).nemu_state) { state = abort; halt_pc = 0x80000008 };
        };
        ref = exec_times counter 2 compared.ref;
      },
    )
unfolding exec_times after_sb after_auipc started effect
difftest_skip_dut-arrives_example =
    difftest_skip_dut-arrives counter knows_all 2 5 1 7 compared (after_auipc on) (after_sb on) refl
      (omega arith) (round auipc_round refl (λ e. omega (arith, e)) (start (after_auipc on)))
      sb_round refl refl
