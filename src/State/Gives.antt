-- ===== src/State/Gives.antt =====
-- Partial correctness of the functions over the globals: what holds when a call returns.
use riscv32_cpu.Base.{Bool, true, false, ◌≡◌, refl, if◌then◌else◌}
use riscv32_cpu.Fault.{Fault, Result, ok, fault}
use riscv32_cpu.State.{State, pure, lift, stop_with, get, put, assert, bind_result, ◌>>=◌}

-- Of a result: if it is a return, the state has `P` and the value `Q`.
abbrev pub Holds : {S A : Type 0} → (S → Type 0) → (A → Type 0) → Result (A × S) → Type 0
Holds P Q (ok (a, s)) = P s × Q a
Holds P Q (fault f) = Unit

abbrev pub Any : {A : Type 0} → A → Type 0
Any a = Unit

-- From every state with `P`, a return leaves `P` and a value with `Q`.
pub record Gives {S A : Type 0} (P : S → Type 0) (m : State S A) (Q : A → Type 0) : Type 0 where
  pub at : (s : S) → P s → Holds P Q (m s)

module _ {S : Type 0} {P : S → Type 0} where
  Holds-bind :
      {A B : Type 0} {Q : A → Type 0} {R : B → Type 0} (r : Result (A × S)) (k : A → State S B)
      → Holds P Q r
      → ((a : A) → Q a → Gives P (k a) R)
      → Holds P R (bind_result r k)
  Holds-bind (ok (a, s)) k h rest = (rest a h.1).at s h.0
  Holds-bind (fault f) k h rest = tt

  pub Gives-bind :
      {A B : Type 0} {Q : A → Type 0} {R : B → Type 0} (m : State S A) (k : A → State S B)
      → Gives P m Q
      → ((a : A) → Q a → Gives P (k a) R)
      → Gives P (m >>= k) R
  unfolding ◌>>=◌
  Gives-bind m k first rest = record { at = λ s h. Holds-bind (m s) k (first.at s h) rest }

  -- The same where nothing is known of the value.
  pub Gives-bind_any :
      {A B : Type 0} {R : B → Type 0} (m : State S A) (k : A → State S B)
      → Gives P m Any
      → ((a : A) → Gives P (k a) R)
      → Gives P (m >>= k) R
  Gives-bind_any m k first rest = Gives-bind m k first (λ a _. rest a)

  pub Gives-bind_get :
      {B : Type 0} {R : B → Type 0} (k : S → State S B)
      → ((s : S) → P s → Gives P (k s) R)
      → Gives P (get >>= k) R
  unfolding ◌>>=◌
  Gives-bind_get k rest = record { at = λ s h. (rest s h).at s h }

  pub Gives-pure-Any : {A : Type 0} (a : A) → Gives P (pure a) Any
  unfolding pure
  Gives-pure-Any a = record { at = λ s h. (h, tt) }

  pub Gives-pure : {A : Type 0} (Q : A → Type 0) (a : A) → Q a → Gives P (pure a) Q
  unfolding pure
  Gives-pure Q a q = record { at = λ s h. (h, q) }

  pub Gives-put : (t : S) → P t → Gives P (put t) Any
  unfolding put
  Gives-put t h = record { at = λ s _. (h, tt) }

  pub Gives-stop_with : {A : Type 0} (Q : A → Type 0) (f : Fault) → Gives P (stop_with {A = A} f) Q
  unfolding stop_with
  Gives-stop_with Q f = record { at = λ s h. tt }

  pub Gives-assert : (b : Bool) → Gives P (assert b) Any
  unfolding assert
  Gives-assert true = record { at = λ s h. (h, tt) }
  Gives-assert false = record { at = λ s h. tt }

  pub Gives-lift :
      {A : Type 0} (Q : A → Type 0) (r : Result A) → ((a : A) → r ≡ ok a → Q a) → Gives P (lift r) Q
  unfolding lift
  Gives-lift Q (ok a) q = record { at = λ s h. (h, q a refl) }
  Gives-lift Q (fault f) q = record { at = λ s h. tt }

  pub Gives-if :
      {A : Type 0} {Q : A → Type 0} (b : Bool) (m k : State S A)
      → Gives P m Q
      → Gives P k Q
      → Gives P (if b then m else k) Q
  Gives-if true m k hm hk = hm
  Gives-if false m k hm hk = hk

Holds-returned :
    {S : Type 0} (P : S → Type 0) {A : Type 0} (Q : A → Type 0) {a : A} {t : S} (r : Result (A × S))
    → Holds P Q r
    → r ≡ ok (a, t)
    → P t × Q a
Holds-returned P Q r h e = rw e at h

-- What a call that returns has.
pub Gives-returned :
    {S : Type 0} {P : S → Type 0} {A : Type 0} {Q : A → Type 0} {a : A} {s t : S} {m : State S A}
    → Gives P m Q
    → P s
    → m s ≡ ok (a, t)
    → P t × Q a
Gives-returned {P = P} {Q = Q} {s = s} {m = m} g h e = Holds-returned P Q (m s) (g.at s h) e

pub ruleset gives_rules = (
  Gives-bind_get, Gives-bind_any, Gives-pure-Any, Gives-put, Gives-stop_with, Gives-assert,
  Gives-if,
)
