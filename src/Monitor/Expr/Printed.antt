-- ===== src/Monitor/Expr/Printed.antt =====
-- The tokenizer on the texts of tokens: make_token of nemu/src/monitor/sdb/expr.c.
use riscv32_cpu.Base.{
  ℕ, zero, suc, ◌+◌, ◌≤◌, ◌<◌, ◌≡◌, ◌≢◌, refl, ◌∙◌, ap, true, Option, none, some, List, [], ◌∷◌,
  ◌++◌, length, get_elem?, ◌==◌, if◌then◌else◌, arith, ==_self, ne→not_==, lt→ltb, le→not_ltb,
  dec_lt,
}
use mathlib.Core.Option.{some-injective}
use riscv32_cpu.Fault.{Fault, ok, fault}
use riscv32_cpu.State.{pure, stop_with, bind_result, ◌>>=◌}
use riscv32_cpu.Monitor.Text.{Text}
use riscv32_cpu.Monitor.Expr.{
  tk_eq, Token, Tokens, rules, blanks, plus, equals, at_start, push_token, add_token, or_match,
  first_match, on_match, token_loop, make_token,
}

-- The two tokens that the rules know.
pub data Kind : Type 0 where
  plus_sign equality : Kind

abbrev pub text_of : Kind → Text
text_of plus_sign = b'+' ∷ []
text_of equality = b'=' ∷ b'=' ∷ []

abbrev pub type_of : Kind → ℕ
type_of plus_sign = b'+'
type_of equality = tk_eq

abbrev pub print : List Kind → Text
print [] = []
print (k ∷ later) = text_of k ++ print later

abbrev pub token_of : Kind → Token
token_of k = record { type = type_of k; str = text_of k }

-- What regexec does on such texts: a rule matches its own text at the start of the string, and no
-- rule matches a text there that begins with another character.
pub record Matches (regexec : Text → Text → Option (ℕ × ℕ)) : Type 0 where
  pub plus_sign : (s : Text) → regexec plus.regex (b'+' ∷ s) ≡ some (0, 1)
  pub equality : (s : Text) → regexec equals.regex (b'=' ∷ b'=' ∷ s) ≡ some (0, 2)
  pub no_plus : (c : ℕ) (s : Text) → c ≢ b'+' → at_start (regexec plus.regex (c ∷ s)) ≡ none
  pub no_blank : (c : ℕ) (s : Text) → c ≢ b' ' → at_start (regexec blanks.regex (c ∷ s)) ≡ none

-- The array with one more token, and with a list of them.
abbrev append : Tokens → Kind → Tokens
append p k = record {
  tokens = λ i. if i == p.nr_token then token_of k else p.tokens i;
  nr_token = p.nr_token + 1;
}

abbrev append_all : Tokens → List Kind → Tokens
append_all p [] = p
append_all p (k ∷ later) = append_all (append p k) later

push_lem :
    (k : Kind) (p : Tokens)
    → p.nr_token < 32
    → add_token (type_of k) (text_of k) p ≡ ok (tt, append p k)
unfolding add_token push_token ◌>>=◌
push_lem plus_sign p room = rw (lt→ltb p.nr_token 32 room) refl
push_lem equality p room = rw (lt→ltb p.nr_token 32 room) refl

push_full :
    (k : Kind) (p : Tokens)
    → 32 ≤ p.nr_token
    → add_token (type_of k) (text_of k) p ≡ fault Fault.undefined
unfolding add_token push_token stop_with ◌>>=◌
push_full plus_sign p full = rw (le→not_ltb p.nr_token 32 full) refl
push_full equality p full = rw (le→not_ltb p.nr_token 32 full) refl

shorter : {n : ℕ} (later : Text) (k : Kind) → length (text_of k ++ later) < suc n → length later < n
shorter later plus_sign h = omega arith
shorter later equality h = omega arith

module _ (regexec : Text → Text → Option (ℕ × ℕ)) (m : Matches regexec) where
  first_plus : (s : Text) → first_match regexec rules (b'+' ∷ s) ≡ some (plus, 1)
  unfolding rules first_match or_match
  first_plus s =
      let found : at_start (regexec plus.regex (b'+' ∷ s)) ≡ some 1 =
        unfold at_start in rw (m.plus_sign s) refl in
      rw (m.no_blank b'+' s (λ e. cc), found) refl

  first_equality : (s : Text) → first_match regexec rules (b'=' ∷ b'=' ∷ s) ≡ some (equals, 2)
  unfolding rules first_match or_match
  first_equality s =
      let found : at_start (regexec equals.regex (b'=' ∷ b'=' ∷ s)) ≡ some 2 =
        unfold at_start in rw (m.equality s) refl in
      rw (m.no_blank b'=' (b'=' ∷ s) (λ e. cc), m.no_plus b'=' (b'=' ∷ s) (λ e. cc), found) refl

  -- One round on the text of a token.
  round :
      (k : Kind) (later : Text) (n : ℕ) (p : Tokens)
      → token_loop regexec (suc n) (text_of k ++ later) p
        ≡ bind_result (add_token (type_of k) (text_of k) p) (λ _. token_loop regexec n later)
  unfolding token_loop on_match ◌>>=◌
  round plus_sign later n p = rw (first_plus later) refl
  round equality later n p = rw (first_equality later) refl

  loop_lem :
      (ks : List Kind) (n : ℕ) (p : Tokens)
      → length (print ks) < n
      → p.nr_token + length ks ≤ 32
      → token_loop regexec n (print ks) p ≡ ok (some true, append_all p ks)
  loop_lem ks zero p enough room = absurd (omega arith)
  loop_lem [] (suc n) p enough room = unfold token_loop pure in refl
  loop_lem (k ∷ later) (suc n) p enough room =
      rw (round k (print later) n p, push_lem k p (omega arith))
        (loop_lem later n (append p k) (shorter (print later) k enough) (omega arith))

  -- The 33rd token is written behind the array.
  loop_full :
      (ks : List Kind) (n : ℕ) (p : Tokens)
      → length (print ks) < n
      → p.nr_token ≤ 32
      → 32 < p.nr_token + length ks
      → token_loop regexec n (print ks) p ≡ fault Fault.undefined
  loop_full ks zero p enough room past = absurd (omega arith)
  loop_full [] (suc n) p enough room past = absurd (omega arith)
  loop_full (k ∷ later) (suc n) p enough room past = elim (dec_lt p.nr_token 32) [
    | yes below ↦
        rw (round k (print later) n p, push_lem k p below)
          (loop_full later n (append p k) (shorter (print later) k enough) (omega arith)
            (omega arith))
    | no full ↦ rw (round k (print later) n p, push_full k p (omega arith)) refl
  ]

-- What the array holds after a list of tokens.
append_below :
    (ks : List Kind) (p : Tokens) (j : ℕ) → j < p.nr_token → (append_all p ks).tokens j ≡ p.tokens j
append_below [] p j below = refl
append_below (k ∷ later) p j below =
    append_below later (append p k) j (omega arith)
    ∙ rw (ne→not_== j p.nr_token (λ e. absurd (omega arith))) refl

append_at :
    (ks : List Kind) (p : Tokens) (i : ℕ) (k : Kind)
    → get_elem? ks i ≡ some k
    → (append_all p ks).tokens (p.nr_token + i) ≡ token_of k
append_at [] p i k e = cc
append_at (x ∷ later) p zero k e =
    let here : p.nr_token + 0 ≡ p.nr_token = omega arith in
    append_below later (append p x) (p.nr_token + 0) (omega arith)
    ∙ rw (here, ==_self p.nr_token) (ap token_of (some-injective _ _ e))
append_at (x ∷ later) p (suc i) k e =
    ap (λ j. (append_all (append p x) later).tokens j) (omega arith)
    ∙ append_at later (append p x) i k e

append-nr_token :
    (ks : List Kind) (p : Tokens) → (append_all p ks).nr_token ≡ p.nr_token + length ks
append-nr_token [] p = omega arith
append-nr_token (k ∷ later) p = append-nr_token later (append p k) ∙ omega arith

-- Let regexec match the text of a rule, and no other text, at the start of a string. Then make_token
-- splits the text of at most 32 tokens `+` and `==`, written without blanks, into these tokens, and
-- succeeds, whatever the array held before.
pub make_token-print :
    (regexec : Text → Text → Option (ℕ × ℕ)) (ks : List Kind) (p : Tokens) (i : ℕ) (k : Kind)
    → Matches regexec
    → length ks ≤ 32
    → get_elem? ks i ≡ some k
    → (t : Tokens) × (make_token regexec (print ks) p ≡ ok (some true, t))
      × (t.nr_token ≡ length ks)
      × (t.tokens i ≡ token_of k)
unfolding make_token ◌>>=◌
make_token-print regexec ks p i k m room at =
    let start : Tokens = record p { nr_token = 0 } in
    (
      append_all start ks,
      loop_lem regexec m ks (length (print ks) + 1) start (omega arith) (omega arith),
      append-nr_token ks start ∙ omega arith,
      ap (λ j. (append_all start ks).tokens j) (omega arith) ∙ append_at ks start i k at,
    )

-- Under the same condition a text of more than 32 tokens is written behind the end of the array.
pub make_token-print_too_long :
    (regexec : Text → Text → Option (ℕ × ℕ)) (ks : List Kind) (p : Tokens)
    → Matches regexec
    → 32 < length ks
    → make_token regexec (print ks) p ≡ fault Fault.undefined
unfolding make_token ◌>>=◌
make_token-print_too_long regexec ks p m past =
    loop_full regexec m ks (length (print ks) + 1) (record p { nr_token = 0 }) (omega arith)
      (omega arith) (omega arith)
