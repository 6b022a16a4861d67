-- ===== src/LlvmIndex/Scanner.antt =====
-- crates/cargo-optic-compiler/src/llvm_index/scanner.rs
use optic.Prelude.{
  ℕ, zero, suc, ◌-◌, Bool, true, false, Option, none, some, List, [], ◌∷◌, ◌++◌, Result, ok, err,
  map_err, contains, ◌==◌, if◌then◌else◌, nat_eq,
}
use optic.Prelude.Text.{Text, text_eq, text_beq, codes}
use optic.Records.ByteRange
use optic.Records.ByteRange.{ByteRange}
use optic.Records.LlvmDefinitionRecord
use optic.Records.LlvmDefinitionRecord.{
  LlvmDefinitionRecord, LlvmDefinitionKind, function, direct_alias, expression_alias, ifunc,
}
use optic.LlvmIndex.Stream.{
  Error, invalid, invalid_record, Stream, Read, pure, fail, ◌>>=◌, ◌>>◌, again, done, repeat,
  get_offset, begin_header, end_header, new, peek, take, skip_line, is_ascii_whitespace,
}
use optic.LlvmIndex.Body.{skip_body}
use optic.LlvmIndex.Symbol.{decode_symbol}
use optic.LlvmIndex.Token.{read_required_token, expect, consume_group}
use optic.LlvmIndex.Header.{lift, is_token, is_one_of, consume_parentheses, read_function}
use optic.LlvmIndex.Alias.{read_alias_target}

-- The modifiers that stand before `global`, `constant`, `alias` and `ifunc`.
abbrev pub modifiers : List Text
modifiers =
    codes "private"
    ∷ codes "internal"
    ∷ codes "available_externally"
    ∷ codes "linkonce"
    ∷ codes "weak"
    ∷ codes "common"
    ∷ codes "appending"
    ∷ codes "extern_weak"
    ∷ codes "linkonce_odr"
    ∷ codes "weak_odr"
    ∷ codes "external"
    ∷ codes "dso_local"
    ∷ codes "dso_preemptable"
    ∷ codes "default"
    ∷ codes "hidden"
    ∷ codes "protected"
    ∷ codes "dllimport"
    ∷ codes "dllexport"
    ∷ codes "unnamed_addr"
    ∷ codes "local_unnamed_addr"
    ∷ codes "externally_initialized"
    ∷ codes "thread_local"
    ∷ []

abbrev pub variables : List Text
variables = codes "global" ∷ codes "constant" ∷ []

abbrev pub alias_kind : Option Text → LlvmDefinitionKind
alias_kind (some target) = direct_alias target
alias_kind none = expression_alias

unfoldable pub read_global_kind : Read (Option LlvmDefinitionKind)
read_global_kind =
    repeat
      (λ (_ : Unit {0}). do
        token ← read_required_token
        if is_one_of variables token
            then (do end_header; skip_line; pure (done none))
            else if is_token "alias" token
            then (do target ← read_alias_target; pure (done (some (alias_kind target))))
            else if is_token "ifunc" token
            then (do _ ← read_alias_target; pure (done (some ifunc)))
            else if is_one_of modifiers token
            then pure (again tt)
            else if is_token "addrspace" token
            then (do consume_parentheses; pure (again tt))
            else if is_token "(" token
            then (do consume_group b'('; pure (again tt))
            else fail (invalid token.offset "Expected an LLVM global, alias, or ifunc"))
      tt

-- The record of the bytes from `start` up to here.
unfoldable pub record_from : ℕ → Text → LlvmDefinitionKind → Read LlvmDefinitionRecord
record_from start symbol kind = do
  at ← get_offset
  range ← lift (map_err (λ e. invalid_record start e) (ByteRange.new start (at - start)))
  lift (map_err (λ e. invalid_record start e) (LlvmDefinitionRecord.new symbol range kind))

unfoldable pub read_global_definition : ℕ → Read (Option LlvmDefinitionRecord)
read_global_definition start = do
  begin_header start
  token ← read_required_token
  expect (codes "=")
  kind ← read_global_kind
  elim kind [
    | none ↦ do end_header; pure none
    | some k ↦ do
      symbol ← lift (decode_symbol token)
      definition ← record_from start symbol k
      end_header
      pure (some definition)
  ]

-- At most `left` bytes, none behind a line end.
unfoldable pub keyword_bytes : ℕ → Read (List ℕ)
keyword_bytes zero = pure []
keyword_bytes (suc left) = do
  next ← take
  elim next [
    | none ↦ pure []
    | some byte ↦
        if byte == 10
        then pure (byte ∷ [])
        else (do others ← keyword_bytes left; pure (byte ∷ others))
  ]

unfoldable pub read_keyword_prefix : Read (List ℕ)
read_keyword_prefix = keyword_bytes 6

-- Does white space or the end of the input follow?
abbrev pub word_ends : Read Bool
word_ends = peek >>= λ next. pure (elim next [ none ↦ true | some byte ↦ is_ascii_whitespace byte ])

unfoldable pub read_function_definition : ℕ → Read LlvmDefinitionRecord
read_function_definition start = do
  begin_header start
  symbol ← read_function
  end_header
  skip_body
  record_from start symbol function

-- A line of which `prefix` was read already.
abbrev pub finish_line : ℕ → List ℕ → Read (Option LlvmDefinitionRecord)
finish_line start prefix = do
  defines ← if text_beq prefix (codes "define") then word_ends else pure false
  if defines
      then (do definition ← read_function_definition start; pure (some definition))
      else if contains prefix 10
      then pure none
      else (do skip_line; pure none)

-- A line that begins with neither white space nor `@`.
unfoldable pub read_line : ℕ → ℕ → Read (Option LlvmDefinitionRecord)
read_line start byte = do
  prefix ← if byte == b'd' then read_keyword_prefix else pure []
  finish_line start prefix

abbrev pub append :
    List LlvmDefinitionRecord → Option LlvmDefinitionRecord → List LlvmDefinitionRecord
append definitions none = definitions
append definitions (some d) = definitions ++ d ∷ []

unfoldable pub scan : Read (List LlvmDefinitionRecord)
scan =
    repeat
      (λ definitions. do
        next ← peek
        elim next [
          | none ↦ pure (done definitions)
          | some byte ↦
              if is_ascii_whitespace byte then (do _ ← take; pure (again definitions)) else (do
                start ← get_offset
                found ← if byte == b'@' then read_global_definition start else read_line start byte
                pure (again (append definitions found)))
        ])
      []

abbrev pub definitions_of :
    Result Error (List LlvmDefinitionRecord × Stream) → Result Error (List LlvmDefinitionRecord)
definitions_of (ok (definitions, s)) = ok definitions
definitions_of (err e) = err e

-- The reader gives these bytes, and then ends or fails.
unfoldable pub index : List ℕ → Option Text → Result Error (List LlvmDefinitionRecord)
index input ending = definitions_of (scan (new input ending))
