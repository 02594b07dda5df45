-- ===== src/Pattern.antt =====
-- nemu/include/cpu/decode.h: instruction patterns, strings of '0', '1', '?' and spaces.
pub mod Split
pub mod Spec
pub mod Loop
pub mod Trail
mod Masked
pub mod Correct
use riscv32_cpu.Base.{
  ℕ, zero, suc, ◌+◌, ◌-◌, ◌*◌, ◌/◌, ◌%◌, ◌^◌, bit_and, bit_or, Bool, ◌||◌, ◌&&◌, List, [], ◌∷◌, leb,
  ◌==◌, if◌then◌else◌,
}
use riscv32_cpu.Fault.{Fault, Result, ok, fault}
use riscv32_cpu.Word.{u64, ◌<<<◌, ◌>>>◌}

-- The three locals of both decoders, and their three results.
pub record Key : Type 0 where
  pub key : ℕ
  pub mask : ℕ
  pub shift : ℕ

abbrev pub is_digit : ℕ → Bool
is_digit c = c == b'0' || c == b'1' || c == b'?'

-- One character that is no space.
unfoldable pub take_char : ℕ → Key → Key
take_char c k = record {
  key = bit_or (u64 (k.key <<< 1)) (if c == b'1' then 1 else 0);
  mask = bit_or (u64 (k.mask <<< 1)) (if c == b'?' then 0 else 1);
  shift = if c == b'?' then k.shift + 1 else 0;
}

-- `macro64(0)` with `left` characters to go; the label `finish` is reached at the string's end.
unfoldable pub decode_loop : ℕ → List ℕ → Key → Result Key
decode_loop zero str k = fault Fault.panic
decode_loop (suc left) [] k = ok k
decode_loop (suc left) (c ∷ str) k =
    let rest = decode_loop left str (if c == b' ' then k else take_char c k) in
    if c == b' ' || is_digit c then rest else fault Fault.assertion

unfoldable pub finish : Result Key → Result Key
finish (ok k) = ok (record { key = k.key >>> k.shift; mask = k.mask >>> k.shift; shift = k.shift })
finish (fault f) = fault f

abbrev pub start : Key
start = record { key = 0; mask = 0; shift = 0 }

unfoldable pub pattern_decode : List ℕ → Result Key
unfolding decode_loop take_char finish
pattern_decode str = finish (decode_loop 64 str start)

-- The test of INSTPAT.
unfoldable pub selects : Key → ℕ → Bool
selects k inst = bit_and (inst >>> k.shift) k.mask == k.key
