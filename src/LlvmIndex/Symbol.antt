-- ===== src/LlvmIndex/Symbol.antt =====
-- crates/cargo-optic-compiler/src/llvm_index/stream.rs: decoding the names of global symbols.
use optic.Prelude.{
  ℕ, zero, suc, ◌+◌, ◌-◌, ◌*◌, Bool, true, false, not, ◌&&◌, List, [], ◌∷◌, Result, ok, err, length,
  all, drop, ◌==◌, within, if◌then◌else◌,
}
use optic.Prelude.Text.{Text, is_ascii_digit, starts_with}
use optic.LlvmIndex.Stream.{Error, invalid, assertion, backslash, quote}
use optic.LlvmIndex.Token.{Token}

-- `hex` of a digit.
unfoldable pub hex : ℕ → ℕ
hex byte =
    if is_ascii_digit byte
    then byte - b'0'
    else if within b'a' b'f' byte
    then byte - b'a' + 10
    else byte - b'A' + 10

abbrev pub push : {E : Type 0} → ℕ → Result E (List ℕ) → Result E (List ℕ)
push byte (ok bytes) = ok (byte ∷ bytes)
push byte (err e) = err e

-- An index behind the end of the token's bytes.
abbrev pub out_of_bounds : Result Error (List ℕ)
out_of_bounds = err (assertion "index out of bounds")

-- The loop, from the bytes at the reading position on; `left` of them are to be read. An escape
-- takes what follows its backslash, one more backslash or two digits.
unfoldable pub decode_bytes : Bool → ℕ → List ℕ → Result Error (List ℕ)
decode_bytes quoted zero bytes = ok []
decode_bytes quoted (suc left) [] = out_of_bounds
decode_bytes quoted (suc left) (byte ∷ []) =
    if quoted && byte == backslash then out_of_bounds else push byte (decode_bytes quoted left [])
decode_bytes quoted (suc left) (byte ∷ first ∷ []) = elim (quoted && byte == backslash) [
  | false ↦ push byte (decode_bytes quoted left (first ∷ []))
  | true ↦
      if first == backslash
      then push backslash (decode_bytes quoted (left - 1) [])
      else out_of_bounds
]
decode_bytes quoted (suc left) (byte ∷ first ∷ second ∷ rest) = elim (quoted && byte == backslash) [
  | false ↦ push byte (decode_bytes quoted left (first ∷ second ∷ rest))
  | true ↦ elim (first == backslash) [
    | true ↦ push backslash (decode_bytes quoted (left - 1) (second ∷ rest))
    | false ↦ push (hex first * 16 + hex second) (decode_bytes quoted (left - 2) rest)
  ]
]

abbrev pub is_continuation : ℕ → Bool
is_continuation byte = within 128 191 byte

-- `String::from_utf8`: the well-formed sequences of the Unicode standard.
abbrev pub second_of_three : ℕ → ℕ → Bool
second_of_three lead byte =
    if lead == 224
    then within 160 191 byte
    else if lead == 237
    then within 128 159 byte
    else is_continuation byte

abbrev pub second_of_four : ℕ → ℕ → Bool
second_of_four lead byte =
    if lead == 240
    then within 144 191 byte
    else if lead == 244
    then within 128 143 byte
    else is_continuation byte

unfoldable pub is_utf8 : List ℕ → Bool
is_utf8 [] = true
is_utf8 (a ∷ []) = within 0 127 a
is_utf8 (a ∷ b ∷ []) = elim (within 0 127 a) [
  | true ↦ is_utf8 (b ∷ [])
  | false ↦ within 194 223 a && is_continuation b
]
is_utf8 (a ∷ b ∷ c ∷ []) = elim (within 0 127 a) [
  | true ↦ is_utf8 (b ∷ c ∷ [])
  | false ↦ elim (within 194 223 a && is_continuation b) [
    | true ↦ is_utf8 (c ∷ [])
    | false ↦ within 224 239 a && second_of_three a b && is_continuation c
  ]
]
is_utf8 (a ∷ b ∷ c ∷ d ∷ rest) = elim (within 0 127 a) [
  | true ↦ is_utf8 (b ∷ c ∷ d ∷ rest)
  | false ↦ elim (within 194 223 a && is_continuation b) [
    | true ↦ is_utf8 (c ∷ d ∷ rest)
    | false ↦ elim (within 224 239 a && second_of_three a b && is_continuation c) [
      | true ↦ is_utf8 (d ∷ rest)
      | false ↦
          elim (within 240 244 a && second_of_four a b && is_continuation c && is_continuation d) [
            | true ↦ is_utf8 rest
            | false ↦ false
          ]
    ]
  ]
]

abbrev pub require_utf8 : ℕ → List ℕ → Result Error Text
require_utf8 offset bytes =
    if is_utf8 bytes then ok bytes else err (invalid offset "Expected a UTF-8 LLVM symbol")

abbrev pub finish : ℕ → Result Error (List ℕ) → Result Error Text
finish offset (ok bytes) = require_utf8 offset bytes
finish offset (err e) = err e

-- A name behind the `@`: numeric, named or quoted.
unfoldable pub decode_name : ℕ → List ℕ → Result Error Text
decode_name offset [] = err (invalid offset "Expected an LLVM global symbol")
decode_name offset (first ∷ rest) =
    if first == quote
    then finish offset (decode_bytes true (length rest - 1) rest)
    else if is_ascii_digit first && not (all is_ascii_digit (first ∷ rest))
    then err (invalid offset "Expected a numeric LLVM slot or a named symbol")
    else finish offset (decode_bytes false (length (first ∷ rest)) (first ∷ rest))

unfoldable pub decode_symbol : Token → Result Error Text
decode_symbol token =
    if starts_with (b'@' ∷ []) token.bytes
    then decode_name token.offset (drop 1 token.bytes)
    else err (invalid token.offset "Expected an LLVM global symbol")
