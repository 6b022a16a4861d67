-- ===== src/LlvmIndex/Alias.antt =====
-- crates/cargo-optic-compiler/src/llvm_index/header.rs: the operands of aliases and ifuncs.
use optic.Prelude.{true, not, ◌&&◌, ◌||◌, Option, none, some, List, [], ◌∷◌, if◌then◌else◌}
use optic.Prelude.Text.{Text, text_eq, codes}
use optic.LlvmIndex.Stream.{invalid, Read, pure, fail, ◌>>=◌, ◌>>◌, again, done, repeat, quote}
use optic.LlvmIndex.Symbol.{decode_symbol}
use optic.LlvmIndex.Token.{read_token, read_required_token}
use optic.LlvmIndex.Header.{
  lift, is_token, is_one_of, starts, consume_token, consume_constant, past_addrspace,
}

abbrev pub misplaced : List Text
misplaced = codes "=" ∷ codes "define" ∷ codes "declare" ∷ []

-- The alias type and its comma.
unfoldable pub alias_type : Read (Unit {0})
alias_type = do
  first ← read_required_token
  if is_token "," first then fail (invalid first.offset "Expected an LLVM alias type") else (do
    consume_token first
    repeat
        (λ (_ : Unit {0}). do
          token ← read_required_token
          if is_token "," token
              then pure (done tt)
              else if is_one_of misplaced token || starts b'@' token
              then fail (invalid token.offset "Expected a comma after the LLVM alias type")
              else (do consume_token token; pure (again tt)))
        tt)

-- The operand: a typed global is a direct target.
unfoldable pub alias_operand : Read (Option Text)
alias_operand = do
  first ← read_required_token
  let typed = is_token "ptr" first
  second ← if typed then read_required_token else pure first
  operand ← past_addrspace typed second
  if typed && starts b'@' operand
      then (do target ← lift (decode_symbol operand); pure (some target))
      else if starts b'@' operand
      then fail (invalid operand.offset "Expected an LLVM pointer type before the target")
      else (do consume_constant operand; pure none)

-- A suffix behind its comma.
unfoldable pub alias_suffix : Read (Unit {0})
alias_suffix = do
  suffix ← read_required_token
  if starts b'!' suffix
      then (do metadata ← read_required_token; consume_token metadata)
      else if not (is_token "partition" suffix)
      then fail (invalid suffix.offset "Expected an LLVM partition or metadata suffix")
      else (do
        name ← read_required_token
        if not (starts quote name)
            then fail (invalid name.offset "Expected an LLVM partition string")
            else pure tt)

unfoldable pub alias_suffixes : Read (Unit {0})
alias_suffixes =
    repeat
      (λ (_ : Unit {0}). do
        token ← read_token true
        elim token [
          | none ↦ pure (done tt)
          | some t ↦
              if not (is_token "," t)
              then fail (invalid t.offset "Expected an LLVM alias suffix, got another operand")
              else (do alias_suffix; pure (again tt))
        ])
      tt

unfoldable pub read_alias_target : Read (Option Text)
read_alias_target = do alias_type; target ← alias_operand; alias_suffixes; pure target
