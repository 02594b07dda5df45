-- ===== src/Tests/Isa.antt =====
-- Runs of the decoder and of one instruction.
use riscv32_cpu.Base.{◌≡◌, refl, arith, false}
use riscv32_cpu.Fault.{ok}
use riscv32_cpu.Word.Fields.{signed}
use riscv32_cpu.Host.{load, store}
use riscv32_cpu.Machine.{update}
use riscv32_cpu.Machine.Valid.{IsReady}
use riscv32_cpu.Isa.Instpat.{Decode}
use riscv32_cpu.Isa.Riscv32.{type_s, Operands, decode_operand, dispatch, isa_exec_once}
use riscv32_cpu.Isa.Riscv32.Dispatch.{Op, op_of, body_of, dispatch_lem}
use riscv32_cpu.Isa.Riscv32.Encode.{encode_s, decode_operand-encode_s}
use riscv32_cpu.Isa.Riscv32.Spec.{lbu, encode, effect, Fetches}
use riscv32_cpu.Isa.Riscv32.Run.{isa_exec_once-encode}
use riscv32_cpu.Tests.{sample}

abbrev at_start : Decode
at_start = record { pc = 0x80000000; snpc = 0x80000000; dnpc = 0; inst = 0 }

abbrev sb_word : Decode
sb_word = record { pc = 0x80000004; snpc = 0x80000008; dnpc = 0x80000008; inst = 0x00028823 }

op_of_run : op_of sb_word.inst ≡ Op.sb
unfolding op_of
op_of_run = refl

dispatch_lem_example : dispatch false sb_word ≡ body_of false sb_word (op_of 0x00028823)
dispatch_lem_example = dispatch_lem false sb_word (omega arith)

decode_operand-encode_s_example :
    (o : Operands) × (decode_operand (encode_s 0xfe1 6 5 0 0x23) type_s sample ≡ ok (o, sample))
    × (o.src1 ≡ sample.cpu.gpr 5)
    × (o.src2 ≡ sample.cpu.gpr 6)
    × (signed 32 o.imm ≡ signed 12 0xfe1)
decode_operand-encode_s_example =
    decode_operand-encode_s 0xfe1 6 5 0 0x23 sample (omega arith) (omega arith) (omega arith)
      (omega arith) (omega arith)

sample-Fetches : Fetches (lbu 0xff0 5 10) sample
unfolding encode load store update
sample-Fetches = record {
  inside = (omega arith, omega arith);
  word = refl;
  fields = (omega arith, omega arith, omega arith);
  reaches = (omega arith, omega arith);
  zero_register = refl;
}

-- The byte in front of t0 arrives in a0.
effect_run : (effect (lbu 0xff0 5 10) sample).cpu.gpr 10 ≡ 42
unfolding effect store update
effect_run = refl

isa_exec_once-encode_example :
    isa_exec_once false at_start sample
    ≡ ok (
      record {
        pc = 0x80000000;
        snpc = 0x80000004;
        dnpc = 0x80000004;
        inst = encode (lbu 0xff0 5 10);
      },
      effect (lbu 0xff0 5 10) sample,
    )
isa_exec_once-encode_example = isa_exec_once-encode false (lbu 0xff0 5 10) sample sample-Fetches

sample-IsReady : IsReady sample
sample-IsReady = record {
  cpu_part = record {
    words = record { gpr = λ i. ground arith; pc = omega arith };
    zero_register = refl;
  };
  pmem_bytes = λ j. unfold store update in ground arith;
  io_bytes = λ j. omega arith;
}
