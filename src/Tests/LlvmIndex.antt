-- ===== src/Tests/LlvmIndex.antt =====
-- The index of a small module.
use optic.Prelude.{
  ◌+◌, Option, All, length, arith, if◌then◌else◌, ℕ, none, some, List, [], ◌∷◌, ◌++◌, ◌≡◌, refl, ok,
  err, contains,
}
use optic.Prelude.Text.{Text, codes, text_beq, starts_with, is_ascii_digit}
use optic.Records.ByteRange
use optic.Records.LlvmDefinitionRecord
use optic.Records.LlvmDefinitionRecord.{LlvmDefinitionRecord, function, direct_alias}
use optic.LlvmIndex.Stream.{
  Stream, quote, invalid, take, peek, new, repeat, rounds, skip_line, is_word, is_ascii_hexdigit,
}
use optic.LlvmIndex.Runs.{Allows}
use optic.LlvmIndex.Runs.Quoted.{Quoted, nothing, character, backslashes, digits}
use optic.LlvmIndex.Decoding.{meaning, IsSound, decode_symbol_quoted}
use optic.LlvmIndex.Layout.{IsDescribed, Increasing}
use optic.LlvmIndex.Scans.{index-IsSound, index-IsDescribed, index_ended}
use optic.LlvmIndex.Braces
use optic.LlvmIndex.Skipping.{unbounded, skip_body_balanced}
use optic.LlvmIndex.Budget.{function_budget}
use optic.LlvmIndex.Chunks.{Chunked, interrupted, bytes, peek_chunk, take_chunk}
use optic.LlvmIndex.Chunks.Refinement.{view, Refines, chunks_refine}
use optic.LlvmIndex.Token.{
  escape_digit, complete_quoted_escape, complete_quoted_token, complete_word, complete_token,
  skip_blank, read_token, read_required_token, expect, matching_close, on_delimiter, close_group,
  consume_group,
}
use optic.LlvmIndex.Body.{on_plain, on_byte, skip_body}
use optic.LlvmIndex.Symbol.{hex, decode_bytes, is_utf8, decode_name, decode_symbol}
use optic.LlvmIndex.Header.{
  consume_token, function_name, skip_flags, consume_operands, consume_constant, consume_parentheses,
  past_addrspace, consume_typed_constant, function_suffix, read_function,
}
use optic.LlvmIndex.Alias.{
  alias_type, alias_operand, alias_suffix, alias_suffixes, read_alias_target,
}
use optic.LlvmIndex.Scanner.{
  read_global_kind, record_from, read_global_definition, keyword_bytes, read_keyword_prefix,
  read_function_definition, read_line, scan, index,
}

abbrev pub text : Text
text =
    codes
      "; define @x\n@a = weak alias void (), ptr @f\n@g = global i8 0\ndefine void @f(i8 %x) {\n  ret void ; }\n}\n!0 = !{}\n"

abbrev pub expected : List LlvmDefinitionRecord
expected =
    record {
      raw_symbol = codes "a";
      range = record { start = 12; length = 32 };
      kind = direct_alias (codes "f");
    }
    ∷ record { raw_symbol = codes "f"; range = record { start = 61; length = 40 }; kind = function }
    ∷ []

pub index_small : index text none ≡ ok expected
unfolding index scan read_line read_function_definition read_keyword_prefix keyword_bytes
    read_global_definition record_from read_global_kind read_alias_target alias_suffixes
    alias_suffix alias_operand alias_type read_function function_suffix consume_typed_constant
    past_addrspace consume_parentheses consume_constant consume_operands skip_flags function_name
    consume_token decode_symbol decode_name is_utf8 decode_bytes hex consume_group close_group
    on_delimiter matching_close expect read_required_token read_token skip_blank complete_token
    complete_word complete_quoted_token complete_quoted_escape escape_digit skip_body on_byte
    on_plain is_ascii_hexdigit is_word skip_line take peek new repeat rounds text_beq contains
    starts_with is_ascii_digit ByteRange.new LlvmDefinitionRecord.new
index_small = refl

index-IsSound_example : IsSound (index text none)
index-IsSound_example = index-IsSound text none

index-IsDescribed_example : All (IsDescribed text) expected × Increasing 0 expected (length text)
index-IsDescribed_example = index-IsDescribed text none expected index_small

index_ended_example : Path (Option Text) none none
index_ended_example = index_ended text none expected index_small

-- An escaped quote and an escaped backslash.
abbrev name_bytes : List ℕ
name_bytes = codes "a\\22\\\\"

name_quoted : Quoted name_bytes
unfolding is_ascii_hexdigit is_ascii_digit
name_quoted = character b'a' _ refl refl (digits b'2' b'2' _ refl refl (backslashes [] nothing))

decode_symbol_quoted_example :
    decode_symbol (record { bytes = b'@' ∷ quote ∷ name_bytes ++ quote ∷ []; offset = 3 }) ≡ (
      if is_utf8 (meaning name_quoted)
      then ok (meaning name_quoted)
      else err (invalid 3 "Expected a UTF-8 LLVM symbol"))
decode_symbol_quoted_example = decode_symbol_quoted name_bytes name_quoted 3

abbrev header : Stream
header = record { rest = codes " void @f() {}"; ending = none; offset = 6; header_start = some 0 }

abbrev behind : Stream
behind = record { rest = codes "}"; ending = none; offset = 18; header_start = some 0 }

header_read : read_function header ≡ ok (codes "f", behind)
unfolding read_function function_suffix consume_parentheses function_name consume_token
    decode_symbol decode_name is_utf8 decode_bytes consume_group close_group on_delimiter
    matching_close expect read_required_token read_token skip_blank complete_token complete_word
    is_word take peek repeat rounds text_beq contains starts_with is_ascii_digit
header_read = refl

function_budget_example : Allows 18 (some 0)
function_budget_example =
    function_budget 0 header (codes "f") behind refl (omega arith, omega arith) header_read

abbrev buffered : Chunked
buffered = record {
  chunk = codes "ab";
  position = 2;
  events = interrupted ∷ bytes b'c' (codes "d") ∷ [];
  ending = none;
  offset = 2;
  header_start = none;
}

chunks_refine_example :
    Refines (peek_chunk buffered) (peek (view buffered))
    × Refines (take_chunk buffered) (take (view buffered))
chunks_refine_example = chunks_refine buffered (omega arith)

-- A brace in a string, and one in a comment.
abbrev body_bytes : List ℕ
body_bytes = codes "\"}\";}\n}"

body_balanced : Braces.Balanced 1 body_bytes
body_balanced =
    Braces.string 1 (b'}' ∷ []) _ (Braces.character b'}' [] refl refl refl Braces.nothing)
      (Braces.comment 1 (b'}' ∷ []) _ (refl, tt) Braces.close)

skip_body_balanced_example :
    skip_body (unbounded (body_bytes ++ codes "x") none 7)
    ≡ ok (tt, unbounded (codes "x") none (7 + length body_bytes))
skip_body_balanced_example =
    skip_body_balanced body_bytes (codes "x") none 7 body_balanced (omega arith)
