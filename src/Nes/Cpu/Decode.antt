-- ===== src/Nes/Cpu/Decode.antt =====
-- The opcodes of the form aaabbb01, as the tables decode them: aaa is the operation, and bbb the
-- addressing mode.
use riscv32_cpu.Base.{
  ℕ, ◌+◌, ◌*◌, ◌<◌, Bool, true, false, ◌&&◌, ◌||◌, ◌≡◌, ◌≢◌, refl, arith, ◌==◌, Option, none, some,
  all_below, all_below-at,
}
use riscv32_cpu.Nes.Cpu.Address.{Mode}
use riscv32_cpu.Nes.Cpu.Table.{cpu_op_table, find_op}
use riscv32_cpu.Nes.Cpu.Table.Item.{Handler, Entry}

-- The operations of the group, in the order of aaa.
unfoldable pub group_of : Handler → ℕ
group_of Handler.ora = 0
group_of Handler.and = 1
group_of Handler.eor = 2
group_of Handler.adc = 3
group_of Handler.sta = 4
group_of Handler.lda = 5
group_of Handler.cmp = 6
group_of Handler.sbc = 7
group_of _ = 8

-- The modes of the group, in the order of bbb.
unfoldable pub column_of : Mode → ℕ
column_of Mode.indirect_x = 0
column_of Mode.zero_page = 1
column_of Mode.immediate = 2
column_of Mode.absolute = 3
column_of Mode.indirect_y = 4
column_of Mode.zero_page_x = 5
column_of Mode.absolute_y = 6
column_of Mode.absolute_x = 7
column_of _ = 8

unfoldable decodes : ℕ → ℕ → Option Entry → Bool
decodes a b none = false
decodes a b (some e) = group_of e.handler == a && column_of e.mode == b && e.in_base_set

decodes_sound :
    (a b : ℕ) (o : Option Entry)
    → decodes a b o ≡ true
    → (e : Entry) × (o ≡ some e)
      × (group_of e.handler ≡ a)
      × (column_of e.mode ≡ b)
      × (e.in_base_set ≡ true)
unfolding decodes
decodes_sound a b none h = absurd (ground arith)
decodes_sound a b (some e) h = (e, refl, ground arith, ground arith, ground arith)

unfoldable group_test : ℕ → ℕ → Bool
group_test a b = a == 4 && b == 2 || decodes a b (find_op cpu_op_table (a * 32 + b * 4 + 1))

group_checked : all_below 8 (λ a. all_below 8 λ b. group_test a b) ≡ true
unfolding all_below group_test decodes find_op group_of column_of
group_checked = refl

-- For aaa = `a` and bbb = `b`, but for the store with an immediate operand (a = 4, b = 2), the
-- element of the tables at the opcode aaabbb01 is in the base set, and has the operation a of ORA,
-- AND, EOR, ADC, STA, LDA, CMP, SBC and the mode b of (d,X), d, immediate, a, (d),Y, d,X, a,Y, a,X.
pub find_op-group :
    (a b : ℕ)
    → a < 8
    → b < 8
    → a * 8 + b ≢ 34
    → (e : Entry) × (find_op cpu_op_table (a * 32 + b * 4 + 1) ≡ some e)
      × (group_of e.handler ≡ a)
      × (column_of e.mode ≡ b)
      × (e.in_base_set ≡ true)
unfolding group_test
find_op-group a b ha hb other =
    let tested : group_test a b ≡ true =
      all_below-at 8 _ b (all_below-at 8 _ a group_checked ha) hb in
    decodes_sound a b (find_op cpu_op_table (a * 32 + b * 4 + 1)) (ground arith)
