-- ===== src/LlvmIndex/Token.antt =====
-- crates/cargo-optic-compiler/src/llvm_index/stream.rs: tokens and delimiter groups.
use optic.Prelude.{
  ℕ, ◌-◌, Bool, true, false, not, ◌&&◌, ◌||◌, Option, none, some, List, [], ◌∷◌, ◌++◌, err, ◌==◌,
  if◌then◌else◌,
}
use optic.Prelude.Text.{Text, text_beq}
use optic.LlvmIndex.Stream.{
  invalid, expected_token, assertion, Read, pure, fail, ◌>>=◌, ◌>>◌, again, done, repeat,
  get_offset, peek, take, take_or, take_peeked, skip_line, is_ascii_whitespace, is_word,
  is_ascii_hexdigit, backslash, quote,
}

pub record Token : Type 0 where
  pub bytes : List ℕ
  pub offset : ℕ

abbrev pub peeks : ℕ → Read Bool
peeks byte = peek >>= λ next. pure (elim next [ none ↦ false | some b ↦ b == byte ])

-- The second backslash or the two digits of an escape, behind its backslash.
unfoldable pub escape_digit : Read ℕ
escape_digit = do
  digit ← take_or (λ at. invalid at "Expected two LLVM escape digits, got EOF")
  at ← get_offset
  if not (is_ascii_hexdigit digit)
      then fail (invalid (at - 1) "Expected an LLVM hex escape")
      else pure digit

unfoldable pub complete_quoted_escape : List ℕ → Read (List ℕ)
complete_quoted_escape bytes = do
  escaped ← peeks backslash
  if escaped
      then (do byte ← take_peeked; pure (bytes ++ byte ∷ []))
      else (do first ← escape_digit; second ← escape_digit; pure (bytes ++ first ∷ second ∷ []))

-- Through the closing quote.
unfoldable pub complete_quoted_token : List ℕ → Read (List ℕ)
complete_quoted_token = repeat λ bytes. do
  byte ← take_or (λ at. invalid at "Expected a closing LLVM quote, got EOF")
  at ← get_offset
  let bytes' = bytes ++ byte ∷ []
  if byte == quote
      then pure (done bytes')
      else if byte == 10 || byte == 13
      then fail (invalid (at - 1) "Expected an escaped LLVM newline")
      else if byte == backslash
      then (do escaped ← complete_quoted_escape bytes'; pure (again escaped))
      else pure (again bytes')

abbrev pub is_sigil : ℕ → Bool
is_sigil byte = byte == b'@' || byte == b'%' || byte == b'$'

-- `while self.peek()?.is_some_and(is_word)`
unfoldable pub complete_word : List ℕ → Read (List ℕ)
complete_word = repeat λ bytes. do
  next ← peek
  if elim next [ none ↦ false | some byte ↦ is_word byte ]
      then (do byte ← take_peeked; pure (again (bytes ++ byte ∷ [])))
      else pure (done bytes)

-- Is the second byte of the token an opening quote?
abbrev pub quote_follows : ℕ → Read Bool
quote_follows first = if is_sigil first then peeks quote else pure false

unfoldable pub complete_token : ℕ → Read (List ℕ)
complete_token first = if first == quote then complete_quoted_token (first ∷ []) else do
  quoted ← quote_follows first
  if quoted
      then (do byte ← take_peeked; complete_quoted_token (first ∷ byte ∷ []))
      else if not (is_word first) && not (is_sigil first || first == b'!')
      then pure (first ∷ [])
      else complete_word (first ∷ [])

-- The loop over white space and comments: whether a line end stopped it.
unfoldable pub skip_blank : Bool → Read Bool
skip_blank stop_at_newline =
    repeat
      (λ (_ : Unit {0}). do
        next ← peek
        elim next [
          | none ↦ pure (done false)
          | some byte ↦
              if byte == b';'
              then (do skip_line; pure (if stop_at_newline then done true else again tt))
              else if is_ascii_whitespace byte
              then (do
                _ ← take
                pure (if stop_at_newline && byte == 10 then done true else again tt))
              else pure (done false)
        ])
      tt

abbrev pub require_budget : Read (Unit {0})
require_budget s = elim s.header_start [
  | none ↦ err (assertion "header tokens require an active byte budget")
  | some start ↦ pure tt s
]

unfoldable pub read_token : Bool → Read (Option Token)
read_token stop_at_newline = do
  require_budget
  ended ← skip_blank stop_at_newline
  if ended then pure none else (do
    at ← get_offset
    first ← take
    elim first [
      | none ↦ pure none
      | some byte ↦ do
        bytes ← complete_token byte
        pure (some (record { bytes = bytes; offset = at }))
    ])

unfoldable pub read_required_token : Read Token
read_required_token = do
  token ← read_token false
  at ← get_offset
  elim token [ none ↦ fail (invalid at "Expected an LLVM header token, got EOF") | some t ↦ pure t ]

unfoldable pub expect : Text → Read (Unit {0})
expect expected = do
  token ← read_required_token
  if not (text_beq token.bytes expected)
      then fail (expected_token token.offset expected)
      else pure tt

unfoldable pub matching_close : ℕ → Option ℕ
matching_close byte =
    if byte == b'('
    then some b')'
    else if byte == b'['
    then some b']'
    else if byte == b'{'
    then some b'}'
    else if byte == b'<'
    then some b'>'
    else none

abbrev pub is_close : ℕ → Bool
is_close byte = byte == b')' || byte == b']' || byte == b'}' || byte == b'>'

-- The only byte of a token.
abbrev pub single : List ℕ → Option ℕ
single (byte ∷ []) = some byte
single _ = none

-- What a token does to the stack of closing delimiters, the innermost first.
unfoldable pub on_delimiter : Token → ℕ → List ℕ → Read (List ℕ)
on_delimiter token byte [] = pure []
on_delimiter token byte (expected ∷ outer) = elim (matching_close byte) [
  | some close ↦ pure (close ∷ expected ∷ outer)
  | none ↦
      if not (is_close byte)
      then pure (expected ∷ outer)
      else if not (byte == expected)
      then fail (invalid token.offset "Expected a matching LLVM delimiter")
      else pure outer
]

unfoldable pub close_group : List ℕ → Read (Unit {0})
close_group = repeat λ closing. elim closing [
  | [] ↦ pure (done tt)
  | expected ∷ outer ↦ do
    token ← read_required_token
    elim (single token.bytes) [
      | none ↦ pure (again (expected ∷ outer))
      | some byte ↦ do rest ← on_delimiter token byte (expected ∷ outer); pure (again rest)
    ]
]

unfoldable pub consume_group : ℕ → Read (Unit {0})
consume_group opening = elim (matching_close opening) [
  | none ↦ fail (assertion "group callers supply an opening delimiter")
  | some close ↦ close_group (close ∷ [])
]
