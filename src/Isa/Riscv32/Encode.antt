-- ===== src/Isa/Riscv32/Encode.antt =====
-- What decode_operand reads from an instruction word that is put together as the manual lays it out.
use riscv32_cpu.Base.{ℕ, ◌+◌, ◌*◌, ◌/◌, ◌%◌, ◌^◌, ◌<◌, ◌≡◌, refl, ap, ◌∙◌, arith}
use riscv32_cpu.Fault.{ok}
use riscv32_cpu.Word.{bits}
use riscv32_cpu.Word.Fields.{signed}
use riscv32_cpu.Machine.{Machine, pure}
use riscv32_cpu.Isa.Riscv32.{imm_i, imm_u, imm_s, type_i, type_u, type_s, Operands, decode_operand}
use riscv32_cpu.Isa.Riscv32.Operand.{
  rd_lem, rs1_lem, rs2_lem, signed-imm_i, signed-imm_s, imm_u_lem, decode_operand-type_i,
  decode_operand-type_s,
}

-- The instruction formats I, S and U of the base ISA.
abbrev pub encode_i : (imm rs1 funct3 rd opcode : ℕ) → ℕ
encode_i imm rs1 funct3 rd opcode =
    imm * 2 ^ 20 + rs1 * 2 ^ 15 + funct3 * 2 ^ 12 + rd * 2 ^ 7 + opcode

abbrev pub encode_s : (imm rs2 rs1 funct3 opcode : ℕ) → ℕ
encode_s imm rs2 rs1 funct3 opcode =
    imm / 32 * 2 ^ 25 + rs2 * 2 ^ 20 + rs1 * 2 ^ 15 + funct3 * 2 ^ 12 + imm % 32 * 2 ^ 7 + opcode

abbrev pub encode_u : (imm rd opcode : ℕ) → ℕ
encode_u imm rd opcode = imm * 2 ^ 12 + rd * 2 ^ 7 + opcode

-- Decoding an I instruction gives its destination, the value of its source register and its
-- immediate with the sign extended; the state stays.
pub decode_operand-encode_i :
    (imm rs1 funct3 rd opcode : ℕ) (s : Machine)
    → imm < 2 ^ 12
    → rs1 < 32
    → funct3 < 8
    → rd < 32
    → opcode < 128
    → (o : Operands) × (decode_operand (encode_i imm rs1 funct3 rd opcode) type_i s ≡ ok (o, s))
      × (o.rd ≡ rd)
      × (o.src1 ≡ s.cpu.gpr rs1)
      × (signed 32 o.imm ≡ signed 12 imm)
decode_operand-encode_i imm rs1 funct3 rd opcode s hi h1 h3 hd ho =
    let i = encode_i imm rs1 funct3 rd opcode in
    (
      record { rd = bits i 11 7; src1 = s.cpu.gpr (bits i 19 15); src2 = 0; imm = imm_i i },
      decode_operand-type_i i s,
      rd_lem i ∙ omega arith,
      ap s.cpu.gpr (rs1_lem i ∙ omega arith),
      signed-imm_i i ∙ ap (signed 12) (omega arith),
    )

-- Decoding an S instruction gives the values of its two source registers and its immediate, whose
-- parts stand apart in the word, with the sign extended; the state stays.
pub decode_operand-encode_s :
    (imm rs2 rs1 funct3 opcode : ℕ) (s : Machine)
    → imm < 2 ^ 12
    → rs2 < 32
    → rs1 < 32
    → funct3 < 8
    → opcode < 128
    → (o : Operands) × (decode_operand (encode_s imm rs2 rs1 funct3 opcode) type_s s ≡ ok (o, s))
      × (o.src1 ≡ s.cpu.gpr rs1)
      × (o.src2 ≡ s.cpu.gpr rs2)
      × (signed 32 o.imm ≡ signed 12 imm)
decode_operand-encode_s imm rs2 rs1 funct3 opcode s hi h2 h1 h3 ho =
    let i = encode_s imm rs2 rs1 funct3 opcode in
    (
      record {
        rd = bits i 11 7;
        src1 = s.cpu.gpr (bits i 19 15);
        src2 = s.cpu.gpr (bits i 24 20);
        imm = imm_s i;
      },
      decode_operand-type_s i s,
      ap s.cpu.gpr (rs1_lem i ∙ omega arith),
      ap s.cpu.gpr (rs2_lem i ∙ omega arith),
      signed-imm_s i ∙ ap (signed 12) (omega arith),
    )

-- Decoding a U instruction gives its destination and its immediate as the upper 20 bits of a word
-- whose lower 12 are clear; the state stays.
pub decode_operand-encode_u :
    (imm rd opcode : ℕ) (s : Machine)
    → imm < 2 ^ 20
    → rd < 32
    → opcode < 128
    → (o : Operands) × (decode_operand (encode_u imm rd opcode) type_u s ≡ ok (o, s))
      × (o.rd ≡ rd)
      × (o.imm ≡ imm * 2 ^ 12)
decode_operand-encode_u imm rd opcode s hi hd ho =
    let i = encode_u imm rd opcode in
    (
      record { rd = bits i 11 7; src1 = 0; src2 = 0; imm = imm_u i },
      unfold decode_operand pure in refl,
      rd_lem i ∙ omega arith,
      imm_u_lem i (omega arith) ∙ omega arith,
    )
