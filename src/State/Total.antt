-- ===== src/State/Total.antt =====
-- Total correctness of the functions over a state: a call returns, and what holds then.
use riscv32_cpu.Base.{Bool, true, false, ◌≡◌, refl, if◌then◌else◌}
use mathlib.Core.Path.{subst}
use riscv32_cpu.Fault.{Result, ok, fault}
use riscv32_cpu.State.{State, pure, get, put, bind_result, ◌>>=◌}

-- Of a result: it is a return, and the state has `P` and the value `Q`.
abbrev pub Returns : {S A : Type 0} → (S → Type 0) → (A → Type 0) → Result (A × S) → Type 0
Returns P Q (ok (a, s)) = P s × Q a
Returns P Q (fault f) = ⊥

-- From every state with `P`, the call returns, with `P` again and a value with `Q`.
pub record Total {S A : Type 0} (P : S → Type 0) (m : State S A) (Q : A → Type 0) : Type 0 where
  pub at : (s : S) → P s → Returns P Q (m s)

module _ {S : Type 0} {P : S → Type 0} where
  pub Returns-bind :
      {A B : Type 0} {Q : A → Type 0} {R : B → Type 0} (r : Result (A × S)) (k : A → State S B)
      → Returns P Q r
      → ((a : A) → Q a → Total P (k a) R)
      → Returns P R (bind_result r k)
  Returns-bind (ok (a, s)) k h rest = (rest a h.1).at s h.0
  Returns-bind (fault f) k h rest = elim h [ ]

  pub Total-bind :
      {A B : Type 0} {Q : A → Type 0} {R : B → Type 0} (m : State S A) (k : A → State S B)
      → Total P m Q
      → ((a : A) → Q a → Total P (k a) R)
      → Total P (m >>= k) R
  unfolding ◌>>=◌
  Total-bind m k first rest = record { at = λ s h. Returns-bind (m s) k (first.at s h) rest }

  -- The same where nothing is said of the values.
  pub Total-then :
      {A B : Type 0} (m : State S A) (k : A → State S B)
      → Total P m (λ a. Unit)
      → ((a : A) → Total P (k a) (λ b. Unit))
      → Total P (m >>= k) (λ b. Unit)
  Total-then m k first rest = Total-bind m k first (λ a _. rest a)

  -- From one state, where the first call is known to return.
  pub Returns-then :
      {A B : Type 0} (m : State S A) (k : A → State S B) (s : S)
      → Returns P (λ a. Unit) (m s)
      → ((a : A) → Total P (k a) (λ b. Unit))
      → Returns P (λ b. Unit) ((m >>= k) s)
  unfolding ◌>>=◌
  Returns-then m k s h rest = Returns-bind (m s) k h (λ a _. rest a)

  pub Total-get :
      {B : Type 0} (k : S → State S B)
      → ((s : S) → P s → Total P (k s) (λ b. Unit))
      → Total P (get >>= k) (λ b. Unit)
  unfolding ◌>>=◌
  Total-get k rest = record { at = λ s h. (rest s h).at s h }

  pub Total-pure : {A : Type 0} (a : A) → Total P (pure a) (λ b. Unit)
  unfolding pure
  Total-pure a = record { at = λ s h. (h, tt) }

  pub Total-value : {A : Type 0} {Q : A → Type 0} (a : A) → Q a → Total P (pure a) Q
  unfolding pure
  Total-value a q = record { at = λ s h. (h, q) }

  pub Total-put : (t : S) → P t → Total P (put t) (λ b. Unit)
  unfolding put
  Total-put t h = record { at = λ s _. (h, tt) }

  pub Total-if :
      {A : Type 0} (b : Bool) (m k : State S A)
      → Total P m (λ a. Unit)
      → Total P k (λ a. Unit)
      → Total P (if b then m else k) (λ a. Unit)
  Total-if true m k hm hk = hm
  Total-if false m k hm hk = hk

  Returns-returned :
      {A : Type 0} (r : Result (A × S))
      → Returns P (λ a. Unit) r
      → (a : A) × (t : S) × (r ≡ ok (a, t)) × P t
  Returns-returned (ok (a, t)) h = (a, t, refl, h.0)
  Returns-returned (fault f) h = elim h [ ]

  -- A total call from a state with `P`, as an equation.
  pub Total-returned :
      {A : Type 0} (m : State S A) (s : S)
      → Total P m (λ a. Unit)
      → P s
      → (a : A) × (t : S) × (m s ≡ ok (a, t)) × P t
  Total-returned m s total h = Returns-returned (m s) (total.at s h)

-- What is known of a call whose result is known.
pub Returns-ok :
    {S A : Type 0} (P : S → Type 0) (Q : A → Type 0) (r : Result (A × S)) (a : A) (t : S)
    → r ≡ ok (a, t)
    → Returns P Q r
    → P t × Q a
Returns-ok P Q r a t same h = subst (Returns P Q) same h

pub ruleset total_rules = (Total-get, Total-then, Total-pure, Total-if)
