-- ===== src/LlvmIndex/Chunks.antt =====
-- crates/cargo-optic-compiler/src/llvm_index/stream.rs: the fixed buffer in front of the reader.
pub mod Refinement
use optic.Prelude.{
  ℕ, zero, suc, ◌+◌, ◌-◌, ◌*◌, ◌≤◌, ◌<◌, Bool, true, false, Option, none, some, List, [], ◌∷◌, ◌++◌,
  append_assoc, append-nil, ◌≡◌, refl, sym, ap, subst, ◌∙◌, inl, inr, arith, Result, ok, err,
  length, drop, get_elem?, get_elem?-lt, leb, ◌==◌, ==_iff, ne_of_==, if◌then◌else◌, Bool-cases,
}
use optic.Prelude.Text.{Text}
use optic.Records.Decimal.{u64_max}
use optic.LlvmIndex.Stream.{
  Error, invalid, read_failed, Stream, header_limit, peek, take, is_spent, continue,
}

-- What a call of the reader gives: an interruption, or bytes, at least one.
pub data Event : Type 0 where
  interrupted : Event
  bytes : ℕ → List ℕ → Event

-- The filled part of the buffer, and what the reader gives from now on.
pub record Chunked : Type 0 where
  pub chunk : List ℕ
  pub position : ℕ
  pub events : List Event
  pub ending : Option Text
  pub offset : ℕ
  pub header_start : Option ℕ

-- The loop of calls: the bytes of the first that is not interrupted, none at the end.
unfoldable pub refill : Option Text → List Event → Result Error (List ℕ × List Event)
refill none [] = ok ([], [])
refill (some e) [] = err (read_failed e)
refill ending (interrupted ∷ events) = refill ending events
refill ending (bytes b bs ∷ events) = ok (b ∷ bs, events)

abbrev pub refilled : Chunked → Result Error (List ℕ × List Event) → Result Error Chunked
refilled s (ok (chunk, events)) = ok (record s { chunk = chunk; position = 0; events = events })
refilled s (err e) = err e

-- The buffer with a byte to read, if there is one.
unfoldable pub fill : Chunked → Result Error Chunked
fill s = if s.position == length s.chunk then refilled s (refill s.ending s.events) else ok s

abbrev pub seen : Result Error Chunked → Result Error (Option ℕ × Chunked)
seen (ok s) = ok (get_elem? s.chunk s.position, s)
seen (err e) = err e

unfoldable pub peek_chunk : Chunked → Result Error (Option ℕ × Chunked)
peek_chunk s = seen (fill s)

abbrev pub is_exhausted : Chunked → Bool
is_exhausted s = elim s.header_start [
  | none ↦ false
  | some start ↦ s.offset - start == header_limit
]

abbrev pub taken : Result Error (Option ℕ × Chunked) → Result Error (Option ℕ × Chunked)
taken (err e) = err e
taken (ok (none, s)) = ok (none, s)
taken (ok (some byte, s)) =
    if is_exhausted s
    then err (invalid s.offset "LLVM header exceeds the 1 MiB budget")
    else if leb u64_max s.offset
    then err (invalid s.offset "LLVM byte offset exceeds u64")
    else ok (some byte, record s { offset = s.offset + 1; position = s.position + 1 })

unfoldable pub take_chunk : Chunked → Result Error (Option ℕ × Chunked)
take_chunk s = taken (peek_chunk s)
