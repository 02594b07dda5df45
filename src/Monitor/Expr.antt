-- ===== src/Monitor/Expr.antt =====
-- nemu/src/monitor/sdb/expr.c: the rules of the tokenizer, and the tokenizer. The pattern of a rule
-- is matched by the POSIX functions regcomp and regexec: `compiles r` tells whether regcomp takes the
-- text, and `regexec r s` is the start and the end of the first match of `r` in `s`, or a failure.
pub mod Printed
use riscv32_cpu.Base.{
  ℕ, zero, suc, ◌+◌, Bool, true, false, Option, none, some, List, [], ◌∷◌, ◌++◌, length, ltb, ◌==◌,
  if◌then◌else◌,
}
use riscv32_cpu.Fault.{Fault, Result, ok, fault}
use riscv32_cpu.State.{State, pure, stop_with, get, put, ◌>>=◌, ◌>>◌}
use riscv32_cpu.Monitor.Text.{Text}

abbrev pub tk_notype : ℕ
tk_notype = 256

abbrev pub tk_eq : ℕ
tk_eq = 257

pub record Rule : Type 0 where
  pub regex : Text
  pub token_type : ℕ

abbrev pub blanks : Rule
blanks = record { regex = b' ' ∷ b'+' ∷ []; token_type = tk_notype }

abbrev pub plus : Rule
plus = record { regex = 92 ∷ b'+' ∷ []; token_type = b'+' }

abbrev pub equals : Rule
equals = record { regex = b'=' ∷ b'=' ∷ []; token_type = tk_eq }

unfoldable pub rules : List Rule
rules = blanks ∷ plus ∷ equals ∷ []

unfoldable pub compile_rules : (Text → Bool) → List Rule → Result (Unit {0})
compile_rules compiles [] = ok tt
compile_rules compiles (rule ∷ later) =
    let rest = compile_rules compiles later in
    if compiles rule.regex then rest else fault Fault.panic

unfoldable pub init_regex : (Text → Bool) → Result (Unit {0})
unfolding rules compile_rules
init_regex compiles = compile_rules compiles rules

pub record Token : Type 0 where
  pub type : ℕ
  pub str : Text

pub record Tokens : Type 0 where
  pub tokens : ℕ → Token
  pub nr_token : ℕ

abbrev pub T : Type 0 → Type 0
T = State Tokens

-- What regexec reports, where the match starts at the string's first character: its end.
unfoldable pub at_start : Option (ℕ × ℕ) → Option ℕ
at_start none = none
at_start (some (rm_so, rm_eo)) = if rm_so == 0 then some rm_eo else none

abbrev pub take_text : ℕ → Text → Text
take_text zero s = []
take_text (suc n) [] = []
take_text (suc n) (c ∷ s) = c ∷ take_text n s

abbrev pub drop_text : ℕ → Text → Text
drop_text zero s = s
drop_text (suc n) [] = []
drop_text (suc n) (c ∷ s) = drop_text n s

-- `tokens` has 32 elements, and the string of a token 31 characters at most.
unfoldable pub push_token : ℕ → Text → T (Unit {0})
push_token type substr = do
  p ← get
  if ltb p.nr_token 32
      then put (record {
        tokens = λ i.
            if i == p.nr_token
            then record { type = type; str = take_text 31 substr }
            else p.tokens i;
        nr_token = p.nr_token + 1;
      })
      else stop_with Fault.undefined

-- The switch on the type: any other than the two is TODO().
unfoldable pub add_token : ℕ → Text → T (Unit {0})
unfolding push_token
add_token type substr =
    if type == b'+'
    then push_token type substr
    else (if type == tk_eq then push_token type substr else stop_with Fault.panic)

unfoldable pub or_match : Option ℕ → Rule → Option (Rule × ℕ) → Option (Rule × ℕ)
or_match none rule rest = rest
or_match (some len) rule rest = some (rule, len)

module _ (regexec : Text → Text → Option (ℕ × ℕ)) where
  -- The first rule that matches at the start, and the length of the match.
  unfoldable pub first_match : List Rule → Text → Option (Rule × ℕ)
  unfolding at_start or_match
  first_match [] e = none
  first_match (rule ∷ later) e =
      or_match (at_start (regexec rule.regex e)) rule (first_match later e)

  unfoldable pub on_match : Option (Rule × ℕ) → Text → (ℕ → T (Option Bool)) → T (Option Bool)
  unfolding add_token
  on_match none e rest = pure (some false)
  on_match (some (rule, len)) e rest = add_token rule.token_type (take_text len e) >> rest len

  -- The loop from the characters at `position` on. The count bounds its rounds; without it a match of
  -- no characters would go round for ever. `none` is a loop that has not ended.
  unfoldable pub token_loop : ℕ → Text → T (Option Bool)
  unfolding rules first_match on_match
  token_loop zero e = pure none
  token_loop (suc n) [] = pure (some true)
  token_loop (suc n) (c ∷ e) =
      on_match (first_match rules (c ∷ e)) (c ∷ e) (λ len. token_loop n (drop_text len (c ∷ e)))

  unfoldable pub make_token : Text → T (Option Bool)
  unfolding token_loop
  make_token e = do p ← get; put (record p { nr_token = 0 }); token_loop (length e + 1) e

  unfoldable pub after_tokens : Option Bool → T (Option (ℕ × Bool))
  after_tokens none = pure none
  after_tokens (some false) = pure (some (0, false))
  after_tokens (some true) = stop_with Fault.panic

  -- expr: the value and `*success`. Behind the tokenizer it is TODO().
  unfoldable pub expr : Text → T (Option (ℕ × Bool))
  unfolding make_token after_tokens
  expr e = make_token e >>= after_tokens
