-- ===== src/Memory/Paddr/Access.antt =====
-- What an access by guest address does, for every address and width.
use riscv32_cpu.Base.{
  ℕ, ◌+◌, ◌-◌, ◌%◌, ◌^◌, ◌≤◌, ◌<◌, ◌≡◌, refl, ap, ◌∙◌, ◌⊎◌, inl, inr, Bool, true, false, arith, leb,
}
use riscv32_cpu.Fault.{Fault, ok, fault}
use riscv32_cpu.Host.{is_width, load, store, host_read, host_write}
use riscv32_cpu.Host.Access.{load-store, store-outside, load-cong}
use riscv32_cpu.Machine.{Machine, stop_with, ◌>>=◌}
use riscv32_cpu.Memory.Range.{mbase, msize, in_pmem, guest_to_host}
use riscv32_cpu.Memory.Paddr.{pmem_read, pmem_write, paddr_read, paddr_write}

-- The `len` bytes from `addr` on lie in the guest's memory.
abbrev pub Covers : ℕ → ℕ → Type 0
Covers addr len = (mbase ≤ addr) × (addr + len ≤ mbase + msize)

apart_offset :
    (addr len other n j : ℕ)
    → mbase ≤ addr
    → (other + n ≤ addr) ⊎ (addr + len ≤ other)
    → Covers other n
    → other - mbase ≤ j
    → j < other - mbase + n
    → (j < addr - mbase) ⊎ (addr - mbase + len ≤ j)
apart_offset addr len other n j low (inl before) c lo hi = inl (omega arith)
apart_offset addr len other n j low (inr after) c lo hi = inr (omega arith)

module _ (addr len : ℕ) (width : is_width len ≡ true) (c : Covers addr len) where
  inside : in_pmem addr ≡ true
  unfolding in_pmem
  inside = let some_bytes : 1 ≤ len = ground arith in ground arith

  offset : guest_to_host addr ≡ addr - mbase
  unfolding guest_to_host
  offset = let some_bytes : 1 ≤ len = ground arith in omega arith

  fits : leb (addr - mbase + len) msize ≡ true
  fits = ground arith

  -- A read of 1, 2 or 4 bytes inside the memory returns them, lowest first, and changes nothing.
  pub paddr_read_lem :
      (device : Bool) (s : Machine)
      → paddr_read device addr len s ≡ ok (load s.pmem (addr - mbase) len, s)
  unfolding paddr_read pmem_read ◌>>=◌
  paddr_read_lem device s = rw (inside, offset) (unfold host_read in rw (width, fits))

  pub paddr_write_lem :
      (device : Bool) (v : ℕ) (s : Machine)
      → paddr_write device addr len v s
        ≡ ok (tt, record s { pmem = store s.pmem (addr - mbase) len v })
  unfolding paddr_write pmem_write ◌>>=◌
  paddr_write_lem device v s = rw (inside, offset) (unfold host_write in rw (width, fits))

-- Let a write of 1, 2 or 4 bytes and a read of 1, 2 or 4 other bytes lie in the memory. Then the write
-- returns; what it wrote is read back, cut to the width; the read of the other bytes gives what it
-- gave before; and no other part of the state changes.
pub paddr_read-paddr_write :
    (device : Bool) (addr len v other n : ℕ) (s : Machine)
    → is_width len ≡ true
    → Covers addr len
    → is_width n ≡ true
    → Covers other n
    → (other + n ≤ addr) ⊎ (addr + len ≤ other)
    → (t : Machine) × (w : ℕ) × (paddr_write device addr len v s ≡ ok (tt, t))
      × (paddr_read device addr len t ≡ ok (v % 256 ^ len, t))
      × (paddr_read device other n s ≡ ok (w, s))
      × (paddr_read device other n t ≡ ok (w, t))
      × (t ≡ record s { pmem = t.pmem })
paddr_read-paddr_write device addr len v other n s width c width_n c_n apart =
    let written = store s.pmem (addr - mbase) len v in
    let t : Machine = record s { pmem = written } in
    let untouched : load written (other - mbase) n ≡ load s.pmem (other - mbase) n =
      load-cong written s.pmem (other - mbase) n (λ j lo hi.
        store-outside s.pmem (addr - mbase) len v j
          (apart_offset addr len other n j c.0 apart c_n lo hi)) in
    (
      t,
      load s.pmem (other - mbase) n,
      paddr_write_lem addr len width c device v s,
      paddr_read_lem addr len width c device t
          ∙ ap (λ w. ok (w, t)) (load-store s.pmem (addr - mbase) len v),
      paddr_read_lem other n width_n c_n device s,
      paddr_read_lem other n width_n c_n device t ∙ ap (λ w. ok (w, t)) untouched,
      refl,
    )

-- Past the last place where the access fits, the first byte still passes in_pmem, and the host
-- access leaves the array: the bounds test looks at the first byte only.
pub paddr_read_past_end :
    (device : Bool) (addr len : ℕ) (s : Machine)
    → is_width len ≡ true
    → mbase ≤ addr
    → addr < mbase + msize
    → mbase + msize < addr + len
    → paddr_read device addr len s ≡ fault Fault.undefined
unfolding paddr_read pmem_read ◌>>=◌
paddr_read_past_end device addr len s width lo hi past =
    let below : len ≤ 4 = ground arith in
    let start : in_pmem addr ≡ true = unfold in_pmem in ground arith in
    let at : guest_to_host addr ≡ addr - mbase = unfold guest_to_host in omega arith in
    let leaves : leb (addr - mbase + len) msize ≡ false = ground arith in
    rw (start, at) (unfold host_read in rw (width, leaves) refl)

-- Without devices, an address outside the memory stops the emulator, for reads and for writes.
pub paddr_out_of_bound :
    (addr len v : ℕ) (s : Machine)
    → addr < 2 ^ 32
    → (addr < mbase) ⊎ (mbase + msize ≤ addr)
    → (paddr_read false addr len s ≡ fault (Fault.out_of_bound addr))
      × (paddr_write false addr len v s ≡ fault (Fault.out_of_bound addr))
unfolding paddr_read paddr_write stop_with
paddr_out_of_bound addr len v s word out =
    let outside : in_pmem addr ≡ false = unfold in_pmem in ground arith in rw outside (refl, refl)
