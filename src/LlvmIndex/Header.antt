-- ===== src/LlvmIndex/Header.antt =====
-- crates/cargo-optic-compiler/src/llvm_index/header.rs
use optic.Prelude.{
  ℕ, Bool, false, not, ◌&&◌, ◌||◌, Option, none, some, List, [], ◌∷◌, Result, ok, err, String,
  contains, if◌then◌else◌,
}
use optic.Prelude.Text.{Text, text_eq, text_beq, codes, starts_with, is_ascii_digit}
use optic.LlvmIndex.Stream.{
  Error, invalid, Read, pure, fail, ◌>>=◌, ◌>>◌, again, done, repeat, quote,
}
use optic.LlvmIndex.Symbol.{decode_symbol}
use optic.LlvmIndex.Token.{
  Token, read_required_token, expect, matching_close, is_close, single, consume_group,
}

-- `?` on a result that does not read.
abbrev pub lift : {A : Type 0} → Result Error A → Read A
lift (ok a) = pure a
lift (err e) = fail e

abbrev pub is_token : String → Token → Bool
is_token text token = text_beq token.bytes (codes text)

abbrev pub is_one_of : List Text → Token → Bool
is_one_of texts token = contains texts token.bytes

abbrev pub starts : ℕ → Token → Bool
starts byte token = starts_with (byte ∷ []) token.bytes

-- `header::consume_group`, on a token that was read.
unfoldable pub consume_token : Token → Read (Unit {0})
consume_token token = elim (single token.bytes) [
  | none ↦ pure tt
  | some byte ↦ elim (matching_close byte) [
    | some close ↦ consume_group byte
    | none ↦
        if is_close byte
        then fail (invalid token.offset "Expected an opening LLVM delimiter")
        else pure tt
  ]
]

-- The words that end a header where they stand.
abbrev pub boundaries : List Text
boundaries = codes "define" ∷ codes "declare" ∷ codes "}" ∷ []

unfoldable pub function_name : Read Text
function_name =
    repeat
      (λ (_ : Unit {0}). do
        token ← read_required_token
        if starts b'@' token
            then (do symbol ← lift (decode_symbol token); pure (done symbol))
            else if is_one_of boundaries token
            then fail (invalid token.offset "Expected an LLVM function name")
            else (do consume_token token; pure (again tt)))
      tt

abbrev pub wrapped_globals : List Text
wrapped_globals = codes "dso_local_equivalent" ∷ codes "no_cfi" ∷ []

abbrev pub simple_constants : List Text
simple_constants =
    codes "null"
    ∷ codes "undef"
    ∷ codes "poison"
    ∷ codes "zeroinitializer"
    ∷ codes "true"
    ∷ codes "false"
    ∷ []

abbrev pub opcodes : List Text
opcodes =
    codes "getelementptr"
    ∷ codes "bitcast"
    ∷ codes "addrspacecast"
    ∷ codes "inttoptr"
    ∷ codes "ptrtoint"
    ∷ codes "trunc"
    ∷ codes "blockaddress"
    ∷ codes "ptrauth"
    ∷ codes "splat"
    ∷ []

abbrev pub gep_flags : List Text
gep_flags = codes "inbounds" ∷ codes "nuw" ∷ codes "nusw" ∷ []

abbrev pub starts_with_digit : Token → Bool
starts_with_digit token = elim token.bytes [ [] ↦ false | byte ∷ _ ↦ is_ascii_digit byte ]

-- The opening token of the operands: past the flags, where the opcode may have them.
unfoldable pub skip_flags : Token → Read Token
skip_flags = repeat λ next.
    if is_one_of gep_flags next
    then (do token ← read_required_token; pure (again token))
    else pure (done next)

unfoldable pub consume_operands : Token → Read (Unit {0})
consume_operands token = do
  first ← read_required_token
  next ← if is_token "getelementptr" token then skip_flags first else pure first
  if not (is_token "(" next)
      then fail (invalid next.offset "Expected LLVM constant operands in parentheses")
      else consume_group b'('

abbrev pub opens_group : Token → Option ℕ
opens_group token = elim (single token.bytes) [
  | none ↦ none
  | some byte ↦ elim (matching_close byte) [ none ↦ none | some close ↦ some byte ]
]

unfoldable pub consume_constant : Token → Read (Unit {0})
consume_constant token = elim (opens_group token) [
  | some byte ↦ consume_group byte
  | none ↦
      if starts b'@' token
      then (do _ ← lift (decode_symbol token); pure tt)
      else if is_one_of wrapped_globals token
      then (do global ← read_required_token; _ ← lift (decode_symbol global); pure tt)
      else if is_token "c" token
      then (do
        text ← read_required_token
        if not (starts quote text)
            then fail (invalid text.offset "Expected an LLVM byte string")
            else pure tt)
      else if is_one_of simple_constants token || starts_with_digit token || starts b'-' token
      then pure tt
      else if not (is_one_of opcodes token)
      then fail (invalid token.offset "Expected a supported LLVM constant form")
      else consume_operands token
]

-- `( … )` behind `addrspace`.
unfoldable pub consume_parentheses : Read (Unit {0})
consume_parentheses = do expect (codes "("); consume_group b'('

-- The token itself, or the one behind an address space.
unfoldable pub past_addrspace : Bool → Token → Read Token
past_addrspace typed token =
    if typed && is_token "addrspace" token
    then (do consume_parentheses; read_required_token)
    else pure token

unfoldable pub consume_typed_constant : Read (Unit {0})
consume_typed_constant = do
  ty ← read_required_token
  consume_token ty
  first ← read_required_token
  value ← past_addrspace (is_token "ptr" ty) first
  consume_constant value

abbrev pub constant_words : List Text
constant_words = codes "prefix" ∷ codes "prologue" ∷ codes "personality" ∷ []

-- From the arguments to the opening brace of the body.
unfoldable pub function_suffix : Read (Unit {0})
function_suffix =
    repeat
      (λ (_ : Unit {0}). do
        token ← read_required_token
        if is_token "{" token
            then pure (done tt)
            else if is_one_of constant_words token
            then (do consume_typed_constant; pure (again tt))
            else if is_token "!" token
            then (do metadata ← read_required_token; consume_token metadata; pure (again tt))
            else if is_one_of boundaries token
            then fail (invalid token.offset "Expected an LLVM function body")
            else (do consume_token token; pure (again tt)))
      tt

unfoldable pub read_function : Read Text
read_function = do symbol ← function_name; consume_parentheses; function_suffix; pure symbol
