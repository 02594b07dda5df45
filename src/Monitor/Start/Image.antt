-- ===== src/Monitor/Start/Image.antt =====
-- What the guest finds of an image file: load_img of nemu/src/monitor/monitor.c.
use riscv32_cpu.Base.{
  ℕ, zero, suc, ◌+◌, ◌-◌, ◌≤◌, ◌<◌, ◌≡◌, refl, ◌∙◌, ap, ◌⊎◌, inl, inr, Bool, true, false, Option,
  none, some, List, [], ◌∷◌, length, get_elem?, leb, arith, ==_self, ne→not_==,
}
use riscv32_cpu.Fault.{Fault, ok, fault}
use riscv32_cpu.Host.{load}
use riscv32_cpu.Machine.{Bytes, update, Machine, stop_with, assert, ◌>>=◌}
use riscv32_cpu.Memory.Range.{mbase, msize, reset_vector, guest_to_host}
use riscv32_cpu.Memory.Paddr.{paddr_read}
use riscv32_cpu.Memory.Paddr.Access.{paddr_read_lem}
use riscv32_cpu.Monitor.Text.{Text}
use riscv32_cpu.Monitor.Start.{copy_image, read_image, load_file, load_img}

-- The copy changes nothing outside its range,
copy_image-outside :
    (bytes : List ℕ) (m : Bytes) (o j : ℕ)
    → (j < o) ⊎ (o + length bytes ≤ j)
    → copy_image m o bytes j ≡ m j
unfolding copy_image
copy_image-outside [] m o j apart = refl
copy_image-outside (b ∷ rest) m o j apart =
    copy_image-outside rest (update m o b) (o + 1) j (outside_tail apart)
    ∙ (unfold update in rw (ne→not_== j o (other apart)) refl)
  where
    outside_tail : (j < o) ⊎ (o + suc (length rest) ≤ j) → (j < o + 1) ⊎ (o + 1 + length rest ≤ j)
    outside_tail (inl below) = inl (omega arith)
    outside_tail (inr above) = inr (omega arith)

    other : (j < o) ⊎ (o + suc (length rest) ≤ j) → ¬ (j ≡ o)
    other (inl below) e = absurd (omega arith)
    other (inr above) e = absurd (omega arith)

written_lem : (m : Bytes) (o v : ℕ) → update m o v (o + 0) ≡ v
unfolding update
written_lem m o v = let same : o + 0 ≡ o = omega arith in rw (same, ==_self o) refl

-- and puts the list's element at each offset in it.
copy_image-at :
    (bytes : List ℕ) (m : Bytes) (o i b : ℕ)
    → get_elem? bytes i ≡ some b
    → copy_image m o bytes (o + i) ≡ b
unfolding copy_image
copy_image-at [] m o i b e = cc
copy_image-at (b' ∷ rest) m o zero b e =
    copy_image-outside rest (update m o b') (o + 1) (o + 0) (inl (omega arith))
    ∙ written_lem m o b'
    ∙ cc
copy_image-at (b' ∷ rest) m o (suc i) b e =
    ap (λ j. copy_image (update m o b') (o + 1) rest j) (omega arith)
    ∙ copy_image-at rest (update m o b') (o + 1) i b e

get_elem?-length : (bytes : List ℕ) (i b : ℕ) → get_elem? bytes i ≡ some b → i < length bytes
get_elem?-length [] i b e = cc
get_elem?-length (x ∷ rest) zero b e = omega arith
get_elem?-length (x ∷ rest) (suc i) b e = omega (arith, get_elem?-length rest i b e)

-- A file that fits the memory is loaded from the first byte of the memory on.
load_file-copies :
    (bytes : List ℕ) (s : Machine)
    → 1 ≤ length bytes
    → length bytes ≤ msize
    → load_file (some bytes) s ≡ ok (length bytes, record s { pmem = copy_image s.pmem 0 bytes })
unfolding load_file read_image assert guest_to_host ◌>>=◌
load_file-copies [] s some_bytes fits = absurd (omega arith)
load_file-copies (b ∷ rest) s some_bytes fits =
    let inside : leb (0 + suc (length rest)) msize ≡ true = ground arith in rw inside refl

-- Let the image file have bytes, no more than the memory. Then load_img returns its size, the guest
-- reads the file's bytes from RESET_VECTOR on, and the rest of the memory and of the state stays.
pub load_img-image :
    (device : Bool) (file : Text → Option (List ℕ)) (img_file : Text) (bytes : List ℕ) (s : Machine)
    → (i b j : ℕ) → file img_file ≡ some bytes
    → length bytes ≤ msize
    → get_elem? bytes i ≡ some b
    → length bytes ≤ j
    → (t : Machine) × (load_img file (some img_file) s ≡ ok (length bytes, t))
      × (paddr_read device (reset_vector + i) 1 t ≡ ok (b, t))
      × (t.pmem j ≡ s.pmem j)
      × (t ≡ record s { pmem = t.pmem })
unfolding load_img load
load_img-image device file img_file bytes s i b j found fits at above =
    let inside = get_elem?-length bytes i b at in
    let t : Machine = record s { pmem = copy_image s.pmem 0 bytes } in
    let offset : reset_vector + i - mbase ≡ 0 + i = omega arith in
    let value : load t.pmem (reset_vector + i - mbase) 1 ≡ b =
      ap (λ j. load t.pmem j 1) offset ∙ omega (arith, copy_image-at bytes s.pmem 0 i b at) in
    (
      t,
      rw found (load_file-copies bytes s (omega arith) fits),
      paddr_read_lem (reset_vector + i) 1 refl (omega arith, omega arith) device t
          ∙ ap (λ w. ok (w, t)) value,
      copy_image-outside bytes s.pmem 0 j (inr (omega arith)),
      refl,
    )

-- An image file that cannot be opened, or that is empty, ends in a failed assertion: fread of one
-- item of no bytes returns 0.
pub load_img_fails :
    (file : Text → Option (List ℕ)) (img_file : Text) (s : Machine)
    → (file img_file ≡ none) ⊎ (file img_file ≡ some [])
    → load_img file (some img_file) s ≡ fault Fault.assertion
unfolding load_img load_file read_image assert stop_with ◌>>=◌
load_img_fails file img_file s (inl missing) = rw missing refl
load_img_fails file img_file s (inr empty) = rw empty refl

-- Nothing tests the size: a file larger than the memory is copied behind the end of the array.
pub load_img_too_large :
    (file : Text → Option (List ℕ)) (img_file : Text) (b : ℕ) (rest : List ℕ) (s : Machine)
    → file img_file ≡ some (b ∷ rest)
    → msize ≤ length rest
    → load_img file (some img_file) s ≡ fault Fault.undefined
unfolding load_img load_file read_image stop_with guest_to_host ◌>>=◌
load_img_too_large file img_file b rest s found large =
    let leaves : leb (0 + suc (length rest)) msize ≡ false = ground arith in rw (found, leaves) refl
