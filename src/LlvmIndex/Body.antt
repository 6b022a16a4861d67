-- ===== src/LlvmIndex/Body.antt =====
-- crates/cargo-optic-compiler/src/llvm_index/stream.rs: the scan of a function body.
use optic.Prelude.{ℕ, ◌+◌, ◌-◌, Bool, true, false, not, ◌&&◌, ◌||◌, none, some, ◌==◌, if◌then◌else◌}
use optic.LlvmIndex.Stream.{
  invalid, Read, Round, pure, fail, ◌>>=◌, again, done, repeat, get_offset, take, is_ascii_hexdigit,
  backslash, quote,
}

pub record Scan : Type 0 where
  pub depth : ℕ
  pub quoted : Bool
  pub comment : Bool
  pub escape_digits : ℕ

abbrev pub start : Scan
start = record { depth = 1; quoted = false; comment = false; escape_digits = 0 }

-- What a byte does: another state, the end of the body, or an error at its offset.
pub data Verdict : Type 0 where
  stay : Scan → Verdict
  finished : Verdict
  bad_escape bad_newline : Verdict

-- The `match` outside quotes and comments.
unfoldable pub on_plain : Scan → ℕ → Verdict
on_plain s byte =
    if byte == b';'
    then stay (record s { comment = true })
    else if byte == quote
    then stay (record s { quoted = true })
    else if byte == b'{'
    then stay (record s { depth = s.depth + 1 })
    else if byte == b'}' && s.depth == 1
    then finished
    else if byte == b'}'
    then stay (record s { depth = s.depth - 1 })
    else stay s

unfoldable pub on_byte : Scan → ℕ → Verdict
on_byte s byte =
    if s.comment
    then stay (record s { comment = not (byte == 10) })
    else if s.escape_digits == 2 && byte == backslash
    then stay (record s { escape_digits = 0 })
    else if not (s.escape_digits == 0) && not (is_ascii_hexdigit byte)
    then bad_escape
    else if not (s.escape_digits == 0)
    then stay (record s { escape_digits = s.escape_digits - 1 })
    else if s.quoted && (byte == 10 || byte == 13)
    then bad_newline
    else if s.quoted && byte == quote
    then stay (record s { quoted = false })
    else if s.quoted && byte == backslash
    then stay (record s { escape_digits = 2 })
    else if s.quoted
    then stay s
    else on_plain s byte

abbrev pub conclude : ℕ → Verdict → Read (Round Scan (Unit {0}))
conclude at (stay s) = pure (again s)
conclude at finished = pure (done tt)
conclude at bad_escape = fail (invalid (at - 1) "Expected an LLVM hex escape")
conclude at bad_newline = fail (invalid (at - 1) "Expected an escaped LLVM newline")

-- The body of the loop.
abbrev pub scan_byte : Scan → Read (Round Scan (Unit {0}))
scan_byte s = do
  next ← take
  at ← get_offset
  elim next [
    | none ↦ fail (invalid at "Expected a closing LLVM body brace, got EOF")
    | some byte ↦ conclude at (on_byte s byte)
  ]

unfoldable pub skip_body : Read (Unit {0})
skip_body = repeat scan_byte start
