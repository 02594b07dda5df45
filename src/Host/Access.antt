-- ===== src/Host/Access.antt =====
-- Loads and stores of bytes: what is stored is loaded, and nothing else changes.
use native.Mathlib.Nat.{pow-suc, pow-succ', one-le-pow, pow-le-pow_right}
use riscv32_cpu.Base.{
  ℕ, zero, suc, ◌+◌, ◌*◌, ◌/◌, ◌%◌, ◌^◌, ◌≤◌, ◌<◌, ◌≡◌, refl, ap, ◌∙◌, sym, ◌⊎◌, inl, arith,
  ==_self,
}
use riscv32_cpu.Machine.{Bytes, update}
use riscv32_cpu.Fault.{ok}
use riscv32_cpu.Host.{load, store, host_read, host_write}

abbrev pub IsBytes : Bytes → Type 0
IsBytes m = (j : ℕ) → m j < 256

-- A store leaves the bytes outside its range alone.
pub store-outside :
    (m : Bytes) (offset n v j : ℕ) → (j < offset) ⊎ (offset + n ≤ j) → store m offset n v j ≡ m j
unfolding store update
store-outside m offset zero v j out = refl
store-outside m offset (suc n) v j out =
    store-outside (update m offset (v % 256)) (offset + 1) n (v / 256) j (omega arith)
    ∙ ground arith

-- A load reads only its range.
pub load-cong :
    (m k : Bytes) (offset n : ℕ)
    → ((j : ℕ) → offset ≤ j → j < offset + n → m j ≡ k j)
    → load m offset n ≡ load k offset n
unfolding load
load-cong m k offset zero same = refl
load-cong m k offset (suc n) same =
    let first = same offset (omega arith) (omega arith) in
    let rest = load-cong m k (offset + 1) n (λ j lo hi. same j (omega arith) (omega arith)) in
    rw (first, rest)

digits_base : (v p : ℕ) → 0 < p → v % 256 + 256 * (v / 256 % p) ≡ v % (256 * p)
digits_base v p some_bits = grind arith

-- A load after a store to the same place gives the value, cut to the bytes written.
pub load-store : (m : Bytes) (offset n v : ℕ) → load (store m offset n v) offset n ≡ v % 256 ^ n
unfolding load store update
load-store m offset zero v = omega arith
load-store m offset (suc n) v =
    let first =
      store-outside (update m offset (v % 256)) (offset + 1) n (v / 256) offset
        (inl (omega arith)) in
    let rest = load-store (update m offset (v % 256)) (offset + 1) n (v / 256) in
    rw (first, rest, ==_self offset)
      (digits_base v (256 ^ n) (one-le-pow n 256 (omega arith))
        ∙ ap (λ t. v % t) (sym (pow-succ' 256 n)))

pub load-lt : (m : Bytes) (offset n : ℕ) → IsBytes m → load m offset n < 256 ^ n
unfolding load
load-lt m offset zero h = omega arith
load-lt m offset (suc n) h = omega (arith, h offset, load-lt m (offset + 1) n h, pow-suc 256 n)

pub store-IsBytes : (m : Bytes) (offset n v : ℕ) → IsBytes m → IsBytes (store m offset n v)
unfolding store update
store-IsBytes m offset zero v h = h
store-IsBytes m offset (suc n) v h =
    store-IsBytes (update m offset (v % 256)) (offset + 1) n (v / 256) (λ j. ground (arith, h j))

-- The host accesses: a read that returns gives a word, and a write that returns leaves bytes.
pub host_read-lt :
    (m : Bytes) (size offset len v : ℕ)
    → IsBytes m
    → host_read m size offset len ≡ ok v
    → v < 2 ^ 32
unfolding host_read
host_read-lt m size offset len v h e =
    ground
      (arith, e, load-lt m offset len h, pow-le-pow_right {n = 256} (omega arith) {i = len} {j = 4})

pub host_write-IsBytes :
    (m : Bytes) (size offset len v : ℕ) (k : Bytes)
    → IsBytes m
    → host_write m size offset len v ≡ ok k
    → IsBytes k
unfolding host_write
host_write-IsBytes m size offset len v k h e j = ground (arith, e, store-IsBytes m offset len v h j)
