-- ===== src/LlvmIndex/Chunks/Refinement.antt =====
-- The operations on the buffer are those on the plain input.
use optic.Prelude.{
  ℕ, zero, suc, ◌+◌, ◌≤◌, ◌<◌, Bool, true, false, Option, none, some, List, [], ◌∷◌, ◌++◌, ◌≡◌,
  refl, sym, ap, subst, ◌∙◌, inl, inr, arith, Result, ok, err, length, drop, get_elem?,
  get_elem?-lt, leb, ◌==◌, ==_iff, ne_of_==, if◌then◌else◌, Bool-cases,
}
use optic.Prelude.Text.{Text}
use optic.Records.Decimal.{u64_max}
use optic.LlvmIndex.Stream.{Error, invalid, Stream, peek, take, is_spent, continue}
use optic.LlvmIndex.Chunks.{
  Event, interrupted, bytes, Chunked, refill, refilled, fill, seen, peek_chunk, is_exhausted, taken,
  take_chunk,
}

-- The bytes that the reader still gives.
abbrev pub given : List Event → List ℕ
given [] = []
given (interrupted ∷ events) = given events
given (bytes b bs ∷ events) = b ∷ bs ++ given events

-- The input that is not consumed yet.
abbrev pub view : Chunked → Stream
view s = record {
  rest = drop s.position s.chunk ++ given s.events;
  ending = s.ending;
  offset = s.offset;
  header_start = s.header_start;
}

abbrev pub IsChunked : Chunked → Type 0
IsChunked s = s.position ≤ length s.chunk

-- The same result, and states that agree.
abbrev pub Refines : Result Error (Option ℕ × Chunked) → Result Error (Option ℕ × Stream) → Type 0
Refines (ok (a, s)) r = IsChunked s × (r ≡ ok (a, view s))
Refines (err e) r = r ≡ err e

module _ (offset : ℕ) (header : Option ℕ) (chunk : List ℕ) (position : ℕ) where
  abbrev chunked : Option Text → List Event → Chunked
  chunked ending events = record {
    chunk = chunk;
    position = position;
    events = events;
    ending = ending;
    offset = offset;
    header_start = header;
  }

  abbrev plain : List ℕ → Option Text → Stream
  plain rest ending = record {
    rest = rest;
    ending = ending;
    offset = offset;
    header_start = header;
  }

  -- An empty buffer is filled with what comes next.
  refill-Refines :
      (ending : Option Text) (before events : List Event)
      → Refines
          (seen (refilled (chunked ending before) (refill ending events)))
          (peek (plain (given events) ending))
  unfolding refill peek
  refill-Refines none before [] = (omega arith, refl)
  refill-Refines (some e) before [] = refl
  refill-Refines none before (interrupted ∷ events) = refill-Refines none before events
  refill-Refines (some e) before (interrupted ∷ events) = refill-Refines (some e) before events
  refill-Refines none before (bytes b bs ∷ events) = (omega arith, refl)
  refill-Refines (some e) before (bytes b bs ∷ events) = (omega arith, refl)

drop_all : (xs : List ℕ) → drop (length xs) xs ≡ []
drop_all [] = refl
drop_all (x ∷ xs) = drop_all xs

-- Where the buffer has more bytes.
record More (xs : List ℕ) (i : ℕ) : Type 0 where
  byte : ℕ
  tail : List ℕ
  drops : drop i xs ≡ byte ∷ tail
  gets : get_elem? xs i ≡ some byte
  next : drop (suc i) xs ≡ tail

more : (xs : List ℕ) (i : ℕ) → i < length xs → More xs i
more [] i h = absurd (omega (arith, h))
more (x ∷ xs) zero h = record { byte = x; tail = xs; drops = refl; gets = refl; next = refl }
more (x ∷ xs) (suc i) h =
    let m = more xs i (omega (arith, h)) in
    record { byte = m.byte; tail = m.tail; drops = m.drops; gets = m.gets; next = m.next }

peek_cons :
    (s : Chunked) (b : ℕ) (rest : List ℕ)
    → (view s).rest ≡ b ∷ rest
    → peek (view s) ≡ ok (some b, view s)
unfolding peek
peek_cons s b rest e =
    subst
      (λ l.
        peek (plain s.offset s.header_start [] 0 l s.ending)
        ≡ ok (some b, plain s.offset s.header_start [] 0 l s.ending))
      (sym e) refl

fill-Refines : (s : Chunked) → IsChunked s → Refines (seen (fill s)) (peek (view s))
unfolding fill
fill-Refines s h = elim (Bool-cases (s.position == length s.chunk)) [
  | inl e ↦ rw e (
      subst
        (λ l.
          Refines (seen (refilled s (refill s.ending s.events)))
            (peek (plain s.offset s.header_start [] 0 (l ++ given s.events) s.ending)))
        (sym
          (ap (λ n. drop n s.chunk) ((==_iff s.position (length s.chunk)).0 e) ∙ drop_all s.chunk))
        (refill-Refines s.offset s.header_start s.chunk s.position s.ending s.events s.events))
  | inr e ↦ rw e (
      let m = more s.chunk s.position (omega (arith, h, ne_of_== s.position (length s.chunk) e)) in
      (
        h,
        peek_cons s m.byte (m.tail ++ given s.events) (ap (λ l. l ++ given s.events) m.drops)
            ∙ ap (λ o. ok (o, view s)) (sym m.gets),
      ))
]

Refines-if :
    (b : Bool) (r r' : Result Error (Option ℕ × Chunked)) (q q' : Result Error (Option ℕ × Stream))
    → Refines r q
    → Refines r' q'
    → Refines (if b then r else r') (if b then q else q')
Refines-if true r r' q q' h h' = h
Refines-if false r r' q q' h h' = h'

-- What the plain input does with the next byte.
abbrev take_plain : Option ℕ → Stream → Result Error (Option ℕ × Stream)
take_plain none s = ok (none, s)
take_plain (some byte) s =
    if is_spent s
    then err (invalid s.offset "LLVM header exceeds the 1 MiB budget")
    else if leb u64_max s.offset
    then err (invalid s.offset "LLVM byte offset exceeds u64")
    else ok (some byte, record s { rest = drop 1 s.rest; offset = s.offset + 1 })

-- `take` on the byte that was seen.
abbrev take_next : Option ℕ → Stream → Result Error (Option ℕ × Stream)
take_next next s = elim next [
  | none ↦ ok (none, s)
  | some byte ↦
      if is_spent s
      then err (invalid s.offset "LLVM header exceeds the 1 MiB budget")
      else if leb u64_max s.offset
      then err (invalid s.offset "LLVM byte offset exceeds u64")
      else ok (some byte, record s { rest = drop 1 s.rest; offset = s.offset + 1 })
]

suc_is : (n : ℕ) → suc n ≡ n + 1
suc_is n = omega arith

advanced :
    (s : Chunked)
    → s.position < length s.chunk
    → drop 1 (drop s.position s.chunk ++ given s.events)
      ≡ drop (s.position + 1) s.chunk ++ given s.events
advanced s h =
    let m = more s.chunk s.position h in
    ap (λ l. drop 1 (l ++ given s.events)) m.drops
    ∙ ap (λ l. l ++ given s.events) (sym m.next)
    ∙ ap (λ n. drop n s.chunk ++ given s.events) (suc_is s.position)

taken_of :
    (s : Chunked)
    → IsChunked s
    → (o : Option ℕ) → get_elem? s.chunk s.position ≡ o
    → Refines (taken (ok (o, s))) (take_plain o (view s))
taken_of s h none e = (h, refl)
taken_of s h (some b) e = Refines-if (is_exhausted s) _ _ _ _ refl (
    Refines-if (leb u64_max s.offset) _ _ _ _ refl (
      omega (arith, get_elem?-lt s.chunk s.position e),
      ap (λ l. ok (some b, plain (s.offset + 1) s.header_start [] 0 l s.ending))
          (advanced s (get_elem?-lt s.chunk s.position e)),
    ))

take_plain_is : (next : Option ℕ) (s : Stream) → take_next next s ≡ take_plain next s
take_plain_is none s = refl
take_plain_is (some b) s = refl

take_is : (s : Stream) → take s ≡ continue (peek s) take_plain
unfolding take
take_is s = λ i. continue (peek s) (λ next t. take_plain_is next t i)

taken-Refines :
    (r : Result Error Chunked) (q : Result Error (Option ℕ × Stream))
    → Refines (seen r) q
    → Refines (taken (seen r)) (continue q take_plain)
taken-Refines (err e) q h = ap (λ x. continue x take_plain) h
taken-Refines (ok s) q (h, e) =
    subst (λ x. Refines (taken (seen (ok s))) (continue x take_plain)) (sym e)
      (taken_of s h (get_elem? s.chunk s.position) refl)

-- Through the buffer, looking at a byte and taking one do exactly what they do on the plain input,
-- however the reader splits it and as often as it is interrupted: the same byte or error, and a
-- state that stands for the same rest of the input.
pub chunks_refine :
    (s : Chunked)
    → IsChunked s
    → Refines (peek_chunk s) (peek (view s)) × Refines (take_chunk s) (take (view s))
unfolding peek_chunk take_chunk
chunks_refine s h = (
  fill-Refines s h,
  subst (Refines (taken (seen (fill s)))) (sym (take_is (view s)))
      (taken-Refines (fill s) (peek (view s)) (fill-Refines s h)),
)
