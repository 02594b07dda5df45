-- ===== src/Device/Keyboard/Queue.antt =====
-- The ring of key events as a queue: what is pressed first is read first.
use riscv32_cpu.Base.{
  ℕ, zero, suc, ◌+◌, ◌-◌, ◌%◌, ◌≤◌, ◌<◌, ◌≡◌, refl, sym, ap, ap₂, ◌∙◌, true, false, List, [], ◌∷◌,
  ◌++◌, arith, ◌==◌, length,
}
use riscv32_cpu.Fault.{Fault, ok, fault}
use riscv32_cpu.Machine.{update, Keyboard, Machine, ◌>>=◌}
use riscv32_cpu.Device.Keyboard.{key_queue_len, key_none, key_enqueue, key_dequeue}

-- The `n` slots from `f` on, around the ring.
unfoldable pub slots : (ℕ → ℕ) → ℕ → ℕ → List ℕ
slots q f zero = []
slots q f (suc n) = q f ∷ slots q ((f + 1) % key_queue_len) n

-- How many events wait, and the events, the oldest first.
abbrev pub pending : Keyboard → ℕ
pending k = (k.key_r + key_queue_len - k.key_f) % key_queue_len

abbrev pub queued : Keyboard → List ℕ
queued k = slots k.key_queue k.key_f (pending k)

pub record IsRing (k : Keyboard) : Type 0 where
  pub front : k.key_f < key_queue_len
  pub rear : k.key_r < key_queue_len

-- Taking the oldest event; an empty queue gives NEMU_KEY_NONE.
abbrev pub pop : List ℕ → ℕ × List ℕ
pop [] = (key_none, [])
pop (x ∷ xs) = (x, xs)

slots-snoc :
    (q : ℕ → ℕ) (f n : ℕ)
    → f < key_queue_len
    → slots q f (suc n) ≡ slots q f n ++ q ((f + n) % key_queue_len) ∷ []
unfolding slots
slots-snoc q f zero low = ap (λ i. q i ∷ []) (omega arith)
slots-snoc q f (suc n) low =
    ap (λ l. q f ∷ l)
      (slots-snoc q ((f + 1) % key_queue_len) n (omega arith)
        ∙ ap (λ i. slots q ((f + 1) % key_queue_len) n ++ q i ∷ []) (omega arith))

-- A write to a slot outside the range.
slots-update :
    (q : ℕ → ℕ) (i v f n : ℕ)
    → f < key_queue_len
    → i < key_queue_len
    → n ≤ (i + key_queue_len - f) % key_queue_len
    → slots (update q i v) f n ≡ slots q f n
unfolding slots
slots-update q i v f zero low at h = refl
slots-update q i v f (suc n) low at h =
    let kept : update q i v f ≡ q f = unfold update in ground arith in
    let rest = slots-update q i v ((f + 1) % key_queue_len) n (omega arith) at (omega arith) in
    ap₂ (λ x l. x ∷ l) kept rest

length-slots : (q : ℕ → ℕ) (f n : ℕ) → length (slots q f n) ≡ n
unfolding slots
length-slots q f zero = refl
length-slots q f (suc n) = omega (arith, length-slots q ((f + 1) % key_queue_len) n)

-- Let fewer than 1023 events wait. Then key_enqueue returns, puts the event behind them, and leaves
-- the indices in the ring.
pub key_enqueue-queued :
    (v : ℕ) (s : Machine)
    → IsRing s.keyboard
    → length (queued s.keyboard) < 1023
    → (t : Machine) × (key_enqueue v s ≡ ok (tt, t))
      × (queued t.keyboard ≡ queued s.keyboard ++ v ∷ [])
      × IsRing t.keyboard
unfolding key_enqueue ◌>>=◌
key_enqueue-queued v s ring room =
    let k = s.keyboard in
    let n = pending k in
    let count : n < 1023 = omega (arith, length-slots k.key_queue k.key_f n) in
    let r = (k.key_r + 1) % key_queue_len in
    let q = update k.key_queue k.key_r v in
    let grown : (r + key_queue_len - k.key_f) % key_queue_len ≡ suc n = ground arith in
    let apart : (r == k.key_f) ≡ false = ground arith in
    let at : (k.key_f + n) % key_queue_len ≡ k.key_r = ground arith in
    let new : q k.key_r ≡ v = unfold update in ground arith in
    let old = slots-update k.key_queue k.key_r v k.key_f n ring.front ring.rear (omega arith) in
    (
      record s { keyboard = record k { key_queue = q; key_r = r } },
      rw apart refl,
      rw (grown, slots-snoc q k.key_f n ring.front, at, new, old) refl,
      record { front = ring.front; rear = omega arith },
    )

-- With 1023 events waiting, enqueueing another one stops the emulator with an assertion.
pub key_enqueue-full :
    (v : ℕ) (s : Machine)
    → IsRing s.keyboard
    → length (queued s.keyboard) ≡ 1023
    → key_enqueue v s ≡ fault Fault.assertion
unfolding key_enqueue ◌>>=◌
key_enqueue-full v s ring full =
    let k = s.keyboard in
    let count : pending k ≡ 1023 = sym (length-slots k.key_queue k.key_f (pending k)) ∙ full in
    let met : ((k.key_r + 1) % key_queue_len == k.key_f) ≡ true = ground arith in rw met refl

dequeue_case :
    (s : Machine) (n : ℕ)
    → IsRing s.keyboard
    → pending s.keyboard ≡ n
    → (t : Machine) × (key_dequeue s
        ≡ ok ((pop (slots s.keyboard.key_queue s.keyboard.key_f n)).0, t))
      × (queued t.keyboard ≡ (pop (slots s.keyboard.key_queue s.keyboard.key_f n)).1)
      × IsRing t.keyboard
unfolding key_dequeue ◌>>=◌ slots
dequeue_case s zero ring count =
    let met : (s.keyboard.key_f == s.keyboard.key_r) ≡ true = ground arith in
    (s, rw met refl, rw count refl, ring)
dequeue_case s (suc n) ring count =
    let k = s.keyboard in
    let f = (k.key_f + 1) % key_queue_len in
    let apart : (k.key_f == k.key_r) ≡ false = ground arith in
    let shrunk : (k.key_r + key_queue_len - f) % key_queue_len ≡ n = ground arith in
    (
      record s { keyboard = record k { key_f = f } },
      rw apart refl,
      ap (slots k.key_queue f) shrunk,
      record { front = omega arith; rear = ring.rear },
    )

-- key_dequeue returns the oldest event and removes it, and returns NEMU_KEY_NONE if none waits.
pub key_dequeue-queued :
    (s : Machine)
    → IsRing s.keyboard
    → (t : Machine) × (key_dequeue s ≡ ok ((pop (queued s.keyboard)).0, t))
      × (queued t.keyboard ≡ (pop (queued s.keyboard)).1)
      × IsRing t.keyboard
key_dequeue-queued s ring = dequeue_case s (pending s.keyboard) ring refl
