-- ===== src/Nes/Cpu/Flags.antt =====
-- The flags of the 6502: what an assignment of one flag, and cpu_update_zn_flags, leave of the others.
use riscv32_cpu.Base.{
  Bool-cases, inl, inr, ℕ, ◌-◌, ◌^◌, ◌<◌, bit_and, bit_or, Bool, true, false, ◌≡◌, refl, arith, ltb,
  leb, ◌==◌, if◌then◌else◌, all_below, all_below-at, same_bool, same_bool_sound,
}
use riscv32_cpu.Word.{u8}
use riscv32_cpu.Nes.Bit.{
  common_bit_set, common_modify_bitb, common_modify_bit, common_set_bit, common_unset_bit,
}
use riscv32_cpu.Nes.Cpu.{cpu_zn_flag_table}

unfoldable modify_test : Bool → ℕ → ℕ → ℕ → Bool
modify_test b k j p =
    same_bool (common_bit_set (u8 (common_modify_bitb p k b)) j)
      (if j == k then b else common_bit_set p j)

unfoldable zn_test : ℕ → ℕ → ℕ → Bool
zn_test t j p =
    same_bool (common_bit_set (u8 (bit_or (bit_and p (2 ^ 32 - 1 - 0x82)) t)) j)
      (if j == 1 then t == 2 else if j == 7 then t == 128 else common_bit_set p j)

-- A test of two positions and a register of eight bits, from its values.
module _ (test : ℕ → ℕ → ℕ → Bool) (n : ℕ) where
  all3_below : Bool
  all3_below = all_below n λ k. all_below 8 λ j. all_below 256 λ p. test k j p

  all3_below-at : (k j p : ℕ) → all3_below ≡ true → k < n → j < 8 → p < 256 → test k j p ≡ true
  unfolding all3_below
  all3_below-at k j p h hk hj hp =
      all_below-at 256 _ p (all_below-at 8 _ j (all_below-at n _ k h hk) hj) hp

set_checked : all3_below (modify_test true) 8 ≡ true
unfolding all3_below all_below modify_test common_bit_set common_modify_bit common_set_bit
    common_unset_bit
set_checked = refl

unset_checked : all3_below (modify_test false) 8 ≡ true
unfolding all3_below all_below modify_test common_bit_set common_modify_bit common_set_bit
    common_unset_bit
unset_checked = refl

modify_tested : (b : Bool) (k j p : ℕ) → k < 8 → j < 8 → p < 256 → modify_test b k j p ≡ true
modify_tested true k j p hk hj hp = all3_below-at (modify_test true) 8 k j p set_checked hk hj hp
modify_tested false k j p hk hj hp =
    all3_below-at (modify_test false) 8 k j p unset_checked hk hj hp

-- An assignment of one flag sets that flag, and keeps each other.
pub flag-modify :
    (b : Bool) (k j p : ℕ)
    → k < 8
    → j < 8
    → p < 256
    → common_bit_set (u8 (common_modify_bitb p k b)) j ≡ (if j == k then b else common_bit_set p j)
unfolding modify_test
flag-modify b k j p hk hj hp = same_bool_sound _ _ (modify_tested b k j p hk hj hp)

zn_at :
    (t : ℕ)
    → all3_below (λ k. zn_test t) 1 ≡ true
    → (j p : ℕ) → j < 8
    → p < 256
    → zn_test t j p ≡ true
zn_at t h j p hj hp = all3_below-at (λ k. zn_test t) 1 0 j p h (omega arith) hj hp

zn_tested : (v j p : ℕ) → j < 8 → p < 256 → zn_test (cpu_zn_flag_table v) j p ≡ true
unfolding cpu_zn_flag_table all3_below all_below zn_test common_bit_set
zn_tested v j p hj hp = elim (Bool-cases (v == 0)) [
  | inl zero ↦ rw zero (zn_at 2 refl j p hj hp)
  | inr other ↦ elim (Bool-cases (ltb v 0x80)) [
    | inl low ↦ rw (other, low) (zn_at 0 refl j p hj hp)
    | inr high ↦ rw (other, high) (zn_at 128 refl j p hj hp)
  ]
]

zero_flag_lem : (v : ℕ) → (cpu_zn_flag_table v == 2) ≡ (v == 0)
unfolding cpu_zn_flag_table
zero_flag_lem v = ground arith

negative_flag_lem : (v : ℕ) → (cpu_zn_flag_table v == 128) ≡ leb 128 v
unfolding cpu_zn_flag_table
negative_flag_lem v = ground arith

-- cpu_update_zn_flags sets the two flags by the value, and keeps each other.
pub flag-update_zn :
    (v j p : ℕ)
    → j < 8
    → p < 256
    → common_bit_set (u8 (bit_or (bit_and p (2 ^ 32 - 1 - 0x82)) (cpu_zn_flag_table v))) j
      ≡ (if j == 1 then v == 0 else if j == 7 then leb 128 v else common_bit_set p j)
unfolding zn_test
flag-update_zn v j p hj hp =
    let set : (cpu_zn_flag_table v == 2) ≡ (v == 0) = zero_flag_lem v in
    let sign : (cpu_zn_flag_table v == 128) ≡ leb 128 v = negative_flag_lem v in
    rw (← set, ← sign) (same_bool_sound _ _ (zn_tested v j p hj hp))
