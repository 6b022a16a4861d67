-- ===== src/LlvmIndex/Aliases.antt =====
-- What reading an alias or ifunc guarantees: it ends, within the budget.
use optic.Prelude.{Bool, true, not, ◌&&◌, ◌||◌, none, some, arith, if◌then◌else◌}
use optic.LlvmIndex.Stream.{invalid, Stream, pure, fail, ◌>>=◌, ◌>>◌, quote}
use optic.LlvmIndex.Token.{Token}
use optic.LlvmIndex.Header.{lift, consume_constant, is_token, is_one_of, starts}
use optic.LlvmIndex.Alias.{
  misplaced, alias_type, alias_operand, alias_suffix, alias_suffixes, read_alias_target,
}
use optic.LlvmIndex.Symbol.{decode_symbol}
use optic.LlvmIndex.Runs.Tokens.{IsValidated}
use optic.LlvmIndex.Runs.{
  Runs, returns, fails, bind, weaken, on_if, repeat-Runs, Reads, Reads-refl, Reads-trans,
  Reads-least, IsActive, Reads-IsActive,
}
use optic.LlvmIndex.Runs.Reading.{after_token, read_token-Runs}
use optic.LlvmIndex.Decoding.{decode-Runs}
use optic.LlvmIndex.Headers.{
  Follows, ReadsToken, both, go_on, stop, next_token, consume_token-Runs, consume_constant-Runs,
  past_addrspace-Runs,
}

alias_type-Runs : (s : Stream) → IsActive s → Runs (Follows s) (alias_type s)
unfolding alias_type
alias_type-Runs s active = bind (next_token active (Reads-refl s)) λ first t p.
    on_if (is_token "," first) _ _ t (λ _. fails _ tt)
      λ _. bind (consume_token-Runs first t (Reads-IsActive p.0 active)) λ _ u q.
        repeat-Runs _ (Follows s) (Follows s)
          (λ _ v r. bind (next_token active r) λ token w x.
            on_if (is_token "," token) _ _ w (λ _. stop tt r x.0)
              λ _.
                on_if (is_one_of misplaced token || starts b'@' token) _ _ w (λ _. fails _ tt)
                  λ _.
                    bind (consume_token-Runs token w (Reads-IsActive (both r x.0) active))
                      λ _ y z. go_on tt r (Reads-trans x.0 z))
          tt u (both p.0 q)

operand_end :
    (s v : Stream) (typed : Bool) (operand : Token)
    → IsActive v
    → IsValidated operand.bytes
    → Reads 0 s v
    → Runs (Follows s) (
        (if typed && starts b'@' operand
            then (lift (decode_symbol operand) >>= λ target. pure (some target))
            else if starts b'@' operand
            then fail (invalid operand.offset "Expected an LLVM pointer type before the target")
            else (consume_constant operand >> pure none))
          v)
operand_end s v typed operand active valid p =
    on_if (typed && starts b'@' operand) _ _ v
      (λ _. bind (decode-Runs operand v valid) λ target w x. returns (some target) w (both p x))
      λ _.
        on_if (starts b'@' operand) _ _ v (λ _. fails _ tt)
          λ _.
            bind (consume_constant-Runs operand v active valid) λ _ w x. returns none w (both p x)

alias_operand-Runs : (s : Stream) → IsActive s → Runs (Follows s) (alias_operand s)
unfolding alias_operand
alias_operand-Runs s active = bind (next_token active (Reads-refl s)) λ first t p.
    let active' = Reads-IsActive p.0 active in
    bind {P = ReadsToken t}
      (on_if (is_token "ptr" first) _ _ t
        (λ _.
          weaken (next_token active' (Reads-refl t))
            λ second u q. (Reads-least 0 (omega arith) q.0, q.1))
        λ _. returns first t (Reads-refl t, p.1))
      λ second u q.
        bind (past_addrspace-Runs (is_token "ptr" first) second u (Reads-IsActive q.0 active') q.1)
          λ operand v r.
            operand_end s v (is_token "ptr" first) operand (Reads-IsActive (both q.0 r.0) active')
              r.1 (both p.0 (both q.0 r.0))

alias_suffix-Runs : (s : Stream) → IsActive s → Runs (λ _ t. Reads 1 s t) (alias_suffix s)
unfolding alias_suffix
alias_suffix-Runs s active = bind (next_token active (Reads-refl s)) λ suffix t p.
    let active' = Reads-IsActive p.0 active in
    on_if (starts b'!' suffix) _ _ t
      (λ _. bind (next_token active' (Reads-refl t)) λ metadata u q.
        weaken (consume_token-Runs metadata u (Reads-IsActive q.0 active'))
          λ _ v r. Reads-least 1 (omega arith) (Reads-trans p.0 (both q.0 r)))
      λ _.
        on_if (not (is_token "partition" suffix)) _ _ t (λ _. fails _ tt)
          λ _. bind (next_token active' (Reads-refl t)) λ name u q.
            on_if (not (starts quote name)) _ _ u (λ _. fails _ tt)
              λ _. returns tt u (Reads-least 1 (omega arith) (Reads-trans p.0 q.0))

alias_suffixes-Runs : (s : Stream) → IsActive s → Runs (Follows s) (alias_suffixes s)
unfolding alias_suffixes
alias_suffixes-Runs s active =
    repeat-Runs _ (Follows s) (Follows s)
      (λ _ t p. bind (read_token-Runs true t (Reads-IsActive p active)) λ next u q.
        after_token t _ _ (λ v r. stop tt p r)
          (λ token v r.
            on_if (not (is_token "," token)) _ _ v (λ _. fails _ tt)
              λ _.
                bind (alias_suffix-Runs v (Reads-IsActive (both p r.0) active))
                  λ _ w x. go_on tt p (Reads-trans r.0 x))
          next u q)
      tt s (Reads-refl s)

pub read_alias_target-Runs : (s : Stream) → IsActive s → Runs (Follows s) (read_alias_target s)
unfolding read_alias_target
read_alias_target-Runs s active = bind (alias_type-Runs s active) λ _ t p.
    bind (alias_operand-Runs t (Reads-IsActive p active)) λ target u q.
      bind (alias_suffixes-Runs u (Reads-IsActive (both p q) active))
        λ _ v r. returns target v (both p (both q r))
