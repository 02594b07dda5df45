-- ===== src/Monitor/Watchpoint.antt =====
-- nemu/src/monitor/sdb/watchpoint.c: the pool of watchpoints. A pointer into `wp_pool` is an index
-- of the array, and NULL is `none`. Of `expr` the code sets the first character only.
use riscv32_cpu.Base.{
  ℕ, zero, suc, ◌+◌, ◌-◌, ◌<◌, ◌≡◌, refl, Option, none, some, List, [], ◌∷◌, ◌==◌, if◌then◌else◌,
  arith, ℕ_discrete, ==_self, ne→not_==,
}
use mathlib.Core.Path.{◌∙◌, ap}

abbrev pub nr_wp : ℕ
nr_wp = 32

pub record Wp : Type 0 where
  pub no : ℕ
  pub next : Option ℕ
  pub expr_0 : ℕ
  pub old_val : ℕ

pub record WpPool : Type 0 where
  pub wp_pool : ℕ → Wp
  pub head : Option ℕ
  pub free_ : Option ℕ

-- `wp_pool[i] = w`
unfoldable pub set_wp : WpPool → ℕ → Wp → WpPool
set_wp p i w = record p { wp_pool = λ j. if j == i then w else p.wp_pool j }

-- A free element.
unfoldable pub fresh_wp : ℕ → Wp
fresh_wp i = record {
  no = i;
  next = if i == nr_wp - 1 then none else some (i + 1);
  expr_0 = 0;
  old_val = 0;
}

-- The loop from `i` on, with `left` rounds left.
unfoldable pub init_wp : ℕ → ℕ → WpPool → WpPool
unfolding set_wp fresh_wp
init_wp zero i p = p
init_wp (suc left) i p = init_wp left (i + 1) (set_wp p i (fresh_wp i))

unfoldable pub init_wp_pool : WpPool → WpPool
unfolding init_wp
init_wp_pool p = record (init_wp nr_wp 0 p) { head = none; free_ = some 0 }

-- The elements of the list that starts at a pointer, in their order.
pub data Chain (p : WpPool) : Option ℕ → List ℕ → Type 0 where
  end_of_chain : Chain p none []
  link :
      (i : ℕ) {rest : List ℕ}
      → i < nr_wp
      → Chain p ((p.wp_pool i).next) rest
      → Chain p (some i) (i ∷ rest)

-- The `n` numbers from `i` on.
abbrev pub range : ℕ → ℕ → List ℕ
range zero i = []
range (suc n) i = i ∷ range n (i + 1)

set_wp_at :
    (i j : ℕ) (p : WpPool)
    → (j < i → p.wp_pool j ≡ fresh_wp j)
    → j < i + 1
    → (set_wp p i (fresh_wp i)).wp_pool j ≡ fresh_wp j
unfolding set_wp
set_wp_at i j p written below = elim (ℕ_discrete j i) [
  | yes same ↦ rw (same, ==_self i) refl
  | no other ↦ rw (ne→not_== j i other) (written (omega arith))
]

-- The loop writes the element of every index in its way, and nothing below.
init_wp_at :
    (left i j : ℕ) (p : WpPool)
    → (j < i → p.wp_pool j ≡ fresh_wp j)
    → j < i + left
    → (init_wp left i p).wp_pool j ≡ fresh_wp j
unfolding init_wp
init_wp_at zero i j p written inside = written (omega arith)
init_wp_at (suc left) i j p written inside =
    init_wp_at left (i + 1) j (set_wp p i (fresh_wp i)) (λ below. set_wp_at i j p written below)
      (omega arith)

module _ (q : WpPool) (written : (j : ℕ) → j < nr_wp → q.wp_pool j ≡ fresh_wp j) where
  next_of : (i : ℕ) → i < 31 → (q.wp_pool i).next ≡ some (i + 1)
  unfolding fresh_wp
  next_of i inside = ap (λ w. w.next) (written i (omega arith)) ∙ ground arith

  last_of : (q.wp_pool 31).next ≡ none
  unfolding fresh_wp
  last_of = ap (λ w. w.next) (written 31 (omega arith))

  Chain-range : (n i : ℕ) → i + n ≡ 31 → Chain q (some i) (range (suc n) i)
  Chain-range zero i h =
      let last_one : i ≡ 31 = omega arith in
      rw last_one (link 31 (omega arith) (rw last_of (end_of_chain)))
  Chain-range (suc n) i h =
      link i (omega arith) (rw (next_of i (omega arith)) (Chain-range n (i + 1) (omega arith)))

-- After init_wp_pool no watchpoint is in use, the free list consists of all 32 elements in the
-- order of the array, and each carries its own number, whatever the pool held.
pub init_wp_pool-Chain :
    (p : WpPool)
    → ((init_wp_pool p).head ≡ none)
      × Chain (init_wp_pool p) (init_wp_pool p).free_ (range nr_wp 0)
      × ((i : ℕ) → i < nr_wp → ((init_wp_pool p).wp_pool i).no ≡ i)
unfolding init_wp_pool fresh_wp
init_wp_pool-Chain p =
    let written : (j : ℕ) → j < nr_wp → (init_wp_pool p).wp_pool j ≡ fresh_wp j =
      λ j inside. init_wp_at nr_wp 0 j p (λ below. absurd (omega arith)) (omega arith) in
    (
      refl,
      Chain-range (init_wp_pool p) written 31 0 refl,
      λ i inside. ap (λ w. w.no) (written i inside),
    )
