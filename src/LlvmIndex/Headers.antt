-- ===== src/LlvmIndex/Headers.antt =====
-- What reading a header guarantees: it ends, within the budget.
use optic.Prelude.{ℕ, suc, Bool, not, ◌&&◌, ◌||◌, none, some, ◌≡◌, ◌≢◌, refl, sym, ◌∙◌, arith, ok}
use optic.Prelude.Text.{codes}
use optic.LlvmIndex.Stream.{Stream, Round, again, done, quote}
use optic.LlvmIndex.Token.{
  Token, read_required_token, matching_close, is_close, single, consume_group,
}
use optic.LlvmIndex.Header.{
  is_token, is_one_of, starts, consume_token, boundaries, function_name, wrapped_globals,
  simple_constants, opcodes, gep_flags, starts_with_digit, skip_flags, consume_operands,
  opens_group, consume_constant, consume_parentheses, past_addrspace, consume_typed_constant,
  constant_words, function_suffix, read_function,
}
use optic.LlvmIndex.Runs.{
  Runs, returns, fails, bind, weaken, on_option, on_if, Turn, repeat-Runs, Reads, Reads-refl,
  Reads-trans, Reads-least, Moves-less, IsActive, Reads-IsActive,
}
use optic.LlvmIndex.Runs.Tokens.{IsValidated}
use optic.LlvmIndex.Runs.Reading.{
  DoesRead, read_required_token-Runs, expect-Runs, consume_group-Runs,
}
use optic.LlvmIndex.Decoding.{decode-Runs}

-- Any result, behind the start.
abbrev pub Follows : {A : Type 0} → Stream → A → Stream → Type 0
Follows s a t = Reads 0 s t

-- A token that was read, with its valid form.
abbrev pub ReadsToken : Stream → Token → Stream → Type 0
ReadsToken s token t = Reads 0 s t × IsValidated token.bytes

abbrev pub Rounds : {S B : Type 0} → Stream → Stream → Round S B → Stream → Type 0
Rounds s = Turn (Follows s) (Follows s)

pub both : {j k : ℕ} {s t u : Stream} → Reads j s t → Reads k t u → Reads 0 s u
both p q = Reads-least 0 (omega arith) (Reads-trans p q)

pub go_on :
    {S B : Type 0} {s t u : Stream} {j k : ℕ} (a : S)
    → Reads j s t
    → Reads (suc k) t u
    → Runs (Rounds {S = S} {B = B} s t) (ok (again a, u))
go_on a p q = returns _ _ (both p q, Moves-less q.moves)

pub stop :
    {S B : Type 0} {s t u : Stream} {j k : ℕ} (b : B)
    → Reads j s t
    → Reads k t u
    → Runs (Rounds {S = S} {B = B} s t) (ok (done b, u))
stop b p q = returns _ _ (both p q)

-- The next token, where the budget is active at an earlier state.
pub next_token :
    {k : ℕ} {s t : Stream} → IsActive s → Reads k s t → Runs (DoesRead t) (read_required_token t)
next_token {t = t} active p = read_required_token-Runs t (Reads-IsActive p active)

some-ne-none : (c : ℕ) → some c ≢ none
some-ne-none c h = cc

pub group-Runs :
    (byte close : ℕ) (s : Stream)
    → matching_close byte ≡ some close
    → IsActive s
    → Runs (Follows s) (consume_group byte s)
group-Runs byte close s e active =
    consume_group-Runs byte s (λ h. some-ne-none close (sym e ∙ h)) active

pub consume_token-Runs :
    (token : Token) (s : Stream) → IsActive s → Runs (Follows s) (consume_token token s)
unfolding consume_token
consume_token-Runs token s active =
    on_option (single token.bytes) _ _ s (λ _. returns tt s (Reads-refl s))
      λ byte _.
        on_option (matching_close byte) _ _ s
          (λ _. on_if (is_close byte) _ _ s (λ _. fails _ tt) λ _. returns tt s (Reads-refl s))
          λ close e. group-Runs byte close s e active

function_name-Runs : (s : Stream) → IsActive s → Runs (Follows s) (function_name s)
unfolding function_name
function_name-Runs s active =
    repeat-Runs _ (Follows s) (Follows s)
      (λ _ t p. bind (next_token active p) λ token u q.
        on_if (starts b'@' token) _ _ u
          (λ _. bind (decode-Runs token u q.1) λ symbol v r. stop symbol p (Reads-trans q.0 r))
          λ _.
            on_if (is_one_of boundaries token) _ _ u (λ _. fails _ tt)
              λ _.
                bind (consume_token-Runs token u (Reads-IsActive (Reads-trans p q.0) active))
                  λ _ v r. go_on tt p (Reads-trans q.0 r))
      tt s (Reads-refl s)

skip_flags-Runs : (token : Token) (s : Stream) → IsActive s → Runs (Follows s) (skip_flags token s)
unfolding skip_flags
skip_flags-Runs token s active =
    repeat-Runs _ (Follows s) (Follows s)
      (λ next t p.
        on_if (is_one_of gep_flags next) _ _ t
          (λ _. bind (next_token active p) λ token u q. go_on token p q.0)
          λ _. stop next p (Reads-refl t))
      token s (Reads-refl s)

pub consume_parentheses-Runs : (s : Stream) → IsActive s → Runs (Follows s) (consume_parentheses s)
unfolding consume_parentheses matching_close
consume_parentheses-Runs s active =
    bind (expect-Runs (codes "(") s active)
      λ _ t p. weaken (group-Runs b'(' b')' t refl (Reads-IsActive p active)) λ _ u q. both p q

consume_operands-Runs :
    (token : Token) (s : Stream) → IsActive s → Runs (Follows s) (consume_operands token s)
unfolding consume_operands matching_close
consume_operands-Runs token s active = bind (next_token active (Reads-refl s)) λ first t p.
    bind {P = Follows t}
      (on_if (is_token "getelementptr" token) _ _ t
        (λ _. skip_flags-Runs first t (Reads-IsActive p.0 active))
        λ _. returns first t (Reads-refl t))
      λ next u q.
        on_if (not (is_token "(" next)) _ _ u (λ _. fails _ tt)
          λ _.
            weaken (group-Runs b'(' b')' u refl (Reads-IsActive (both p.0 q) active))
              λ _ v r. both p.0 (both q r)

opens_group-closes :
    (token : Token) (byte : ℕ) → opens_group token ≡ some byte → matching_close byte ≢ none
opens_group-closes token byte h e = ground arith

pub consume_constant-Runs :
    (token : Token) (s : Stream)
    → IsActive s
    → IsValidated token.bytes
    → Runs (Follows s) (consume_constant token s)
unfolding consume_constant
consume_constant-Runs token s active valid =
    on_option (opens_group token) _ _ s
      (λ _.
        on_if (starts b'@' token) _ _ s
          (λ _. bind (decode-Runs token s valid) λ _ t p. returns tt t p)
          λ _.
            on_if (is_one_of wrapped_globals token) _ _ s
              (λ _.
                bind (next_token active (Reads-refl s))
                  λ global t p. bind (decode-Runs global t p.1) λ _ u q. returns tt u (both p.0 q))
              λ _.
                on_if (is_token "c" token) _ _ s
                  (λ _. bind (next_token active (Reads-refl s)) λ text t p.
                    on_if (not (starts quote text)) _ _ t (λ _. fails _ tt)
                      λ _. returns tt t (Reads-least 0 (omega arith) p.0))
                  λ _.
                    on_if
                      (is_one_of simple_constants token
                        || starts_with_digit token
                        || starts b'-' token)
                      _ _ s (λ _. returns tt s (Reads-refl s))
                      λ _.
                        on_if (not (is_one_of opcodes token)) _ _ s (λ _. fails _ tt)
                          λ _. consume_operands-Runs token s active)
      λ byte e. consume_group-Runs byte s (opens_group-closes token byte e) active

pub past_addrspace-Runs :
    (typed : Bool) (token : Token) (s : Stream)
    → IsActive s
    → IsValidated token.bytes
    → Runs (ReadsToken s) (past_addrspace typed token s)
unfolding past_addrspace
past_addrspace-Runs typed token s active valid =
    on_if (typed && is_token "addrspace" token) _ _ s
      (λ _.
        bind (consume_parentheses-Runs s active)
          λ _ t p. weaken (next_token active p) λ token u q. (both p q.0, q.1))
      λ _. returns token s (Reads-refl s, valid)

consume_typed_constant-Runs :
    (s : Stream) → IsActive s → Runs (Follows s) (consume_typed_constant s)
unfolding consume_typed_constant
consume_typed_constant-Runs s active = bind (next_token active (Reads-refl s)) λ ty t p.
    bind (consume_token-Runs ty t (Reads-IsActive p.0 active)) λ _ u q.
      bind (next_token active (both p.0 q)) λ first v r.
        bind
          (past_addrspace-Runs (is_token "ptr" ty) first v
            (Reads-IsActive (both p.0 (both q r.0)) active) r.1)
          λ value w x.
            weaken
              (consume_constant-Runs value w
                (Reads-IsActive (both p.0 (both q (both r.0 x.0))) active) x.1)
              λ _ y z. both p.0 (both q (both r.0 (both x.0 z)))

function_suffix-Runs : (s : Stream) → IsActive s → Runs (Follows s) (function_suffix s)
unfolding function_suffix
function_suffix-Runs s active =
    repeat-Runs _ (Follows s) (Follows s)
      (λ _ t p. bind (next_token active p) λ token u q.
        let active' = Reads-IsActive (both p q.0) active in
        on_if (is_token "{" token) _ _ u (λ _. stop tt p q.0)
          λ _.
            on_if (is_one_of constant_words token) _ _ u
              (λ _.
                bind (consume_typed_constant-Runs u active')
                  λ _ v r. go_on tt p (Reads-trans q.0 r))
              λ _.
                on_if (is_token "!" token) _ _ u
                  (λ _. bind (next_token active' (Reads-refl u)) λ metadata v r.
                    bind (consume_token-Runs metadata v (Reads-IsActive r.0 active'))
                      λ _ w x. go_on tt p (Reads-trans q.0 (both r.0 x)))
                  λ _.
                    on_if (is_one_of boundaries token) _ _ u (λ _. fails _ tt)
                      λ _.
                        bind (consume_token-Runs token u active')
                          λ _ v r. go_on tt p (Reads-trans q.0 r))
      tt s (Reads-refl s)

-- A function header ends within its budget, or fails.
pub read_function-Runs : (s : Stream) → IsActive s → Runs (Follows s) (read_function s)
unfolding read_function
read_function-Runs s active = bind (function_name-Runs s active) λ symbol t p.
    bind (consume_parentheses-Runs t (Reads-IsActive p active)) λ _ u q.
      bind (function_suffix-Runs u (Reads-IsActive (both p q) active))
        λ _ v r. returns symbol v (both p (both q r))
