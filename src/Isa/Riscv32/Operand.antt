-- ===== src/Isa/Riscv32/Operand.antt =====
-- What decode_operand reads from an instruction that is put together as the ISA manual lays it out.
use riscv32_cpu.Base.{ℕ, ◌+◌, ◌*◌, ◌/◌, ◌%◌, ◌^◌, ◌<◌, bit_or, ◌≡◌, ap, arith, lt→ltb}
use riscv32_cpu.Fault.{ok}
use riscv32_cpu.Word.{u32, u64, bits, sext}
use riscv32_cpu.Word.Bits.{bit_or-add}
use riscv32_cpu.Word.Fields.{bits_lem, signed, signed-sext}
use riscv32_cpu.Machine.{Machine, ◌>>=◌}
use riscv32_cpu.Isa.Riscv32.{gpr, imm_i, imm_u, imm_s, type_i, type_s, decode_operand}

pub rd_lem : (i : ℕ) → bits i 11 7 ≡ i / 2 ^ 7 % 32
rd_lem i = bits_lem i 11 7 (omega arith)

pub rs1_lem : (i : ℕ) → bits i 19 15 ≡ i / 2 ^ 15 % 32
rs1_lem i = bits_lem i 19 15 (omega arith)

pub rs2_lem : (i : ℕ) → bits i 24 20 ≡ i / 2 ^ 20 % 32
rs2_lem i = bits_lem i 24 20 (omega arith)

pub signed-imm_i : (i : ℕ) → signed 32 (imm_i i) ≡ signed 12 (i / 2 ^ 20 % 2 ^ 12)
unfolding imm_i
signed-imm_i i =
    rw
      (
        bits_lem i 31 20 (omega arith),
        signed-sext (i / 2 ^ 20 % 2 ^ 12) 12 (omega arith) (omega arith),
      )
      (ap (signed 12) (omega arith))

pub imm_u_lem : (i : ℕ) → i < 2 ^ 32 → imm_u i ≡ i / 2 ^ 12 * 2 ^ 12
unfolding imm_u sext
imm_u_lem i word = rw (bits_lem i 31 12 (omega arith)) (ground arith)

join_lem : (n lo : ℕ) → lo < 32 → bit_or (u64 (n * 2 ^ 5)) lo ≡ u64 (n * 2 ^ 5) + lo
join_lem n lo low =
    let cut : u64 (n * 2 ^ 5) ≡ n % 2 ^ 59 * 2 ^ 5 = omega arith in
    rw cut (bit_or-add 5 (n % 2 ^ 59) lo low)

join_sext :
    (hi lo : ℕ)
    → hi < 128
    → lo < 32
    → u32 (u64 (sext hi 7 * 2 ^ 5) + lo) ≡ u32 (sext (hi * 32 + lo) 12)
unfolding sext
join_sext hi lo h l = ground arith

-- The two parts of the S immediate, joined and extended, are the joined parts extended.
pub imm_s_lem : (i : ℕ) → imm_s i ≡ u32 (sext (i / 2 ^ 25 % 2 ^ 7 * 32 + i / 2 ^ 7 % 32) 12)
imm_s_lem i =
    unfold imm_s in
    rw
      (
        bits_lem i 31 25 (omega arith),
        bits_lem i 11 7 (omega arith),
        join_lem (sext (i / 2 ^ 25 % 2 ^ 7) 7) (i / 2 ^ 7 % 32) (omega arith),
      )
      (join_sext (i / 2 ^ 25 % 2 ^ 7) (i / 2 ^ 7 % 32) (omega arith) (omega arith))

pub signed-imm_s :
    (i : ℕ) → signed 32 (imm_s i) ≡ signed 12 (i / 2 ^ 25 % 2 ^ 7 * 32 + i / 2 ^ 7 % 32)
signed-imm_s i =
    let n = i / 2 ^ 25 % 2 ^ 7 * 32 + i / 2 ^ 7 % 32 in
    rw (imm_s_lem i, signed-sext n 12 (omega arith) (omega arith)) (ap (signed 12) (omega arith))

-- The registers are in range, so reading them fails no assertion.
pub gpr_lem : (idx : ℕ) (s : Machine) → idx < 32 → gpr idx s ≡ ok (s.cpu.gpr idx, s)
unfolding gpr ◌>>=◌
gpr_lem idx s low = rw (lt→ltb idx 32 low)

pub decode_operand-type_i :
    (i : ℕ) (s : Machine)
    → decode_operand i type_i s
      ≡ ok
          (record { rd = bits i 11 7; src1 = s.cpu.gpr (bits i 19 15); src2 = 0; imm = imm_i i }, s)
decode_operand-type_i i s =
    unfold decode_operand ◌>>=◌ in rw (gpr_lem (bits i 19 15) s (rw (rs1_lem i) (omega arith)))

pub decode_operand-type_s :
    (i : ℕ) (s : Machine)
    → decode_operand i type_s s
      ≡ ok (
        record {
          rd = bits i 11 7;
          src1 = s.cpu.gpr (bits i 19 15);
          src2 = s.cpu.gpr (bits i 24 20);
          imm = imm_s i;
        },
        s,
      )
decode_operand-type_s i s =
    unfold decode_operand ◌>>=◌ in
    rw (
      gpr_lem (bits i 19 15) s (rw (rs1_lem i) (omega arith)),
      gpr_lem (bits i 24 20) s (rw (rs2_lem i) (omega arith)),
    )
