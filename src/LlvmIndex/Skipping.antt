-- ===== src/LlvmIndex/Skipping.antt =====
-- Skipping a function body reads it to its end, and no further.
use optic.Prelude.{
  ℕ, suc, ◌+◌, ◌≤◌, ◌<◌, false, Option, none, some, List, [], ◌∷◌, ◌++◌, append_assoc,
  length-append, ◌≡◌, refl, sym, ap, subst, ◌∙◌, arith, Result, ok, length, leb,
}
use optic.Prelude.Text.{Text}
use optic.Records.Decimal.{u64_max}
use optic.LlvmIndex.Stream.{Error, Stream, take, peek, rounds, repeat}
use optic.LlvmIndex.Body.{Scan, start, scan_byte, stay, finished, on_plain, on_byte, skip_body}
use optic.LlvmIndex.Braces.{Steps, none_left, step, at, Balanced, Balanced-Ends}

-- Behind a header: no budget is active.
abbrev pub unbounded : List ℕ → Option Text → ℕ → Stream
unbounded rest ending offset = record {
  rest = rest;
  ending = ending;
  offset = offset;
  header_start = none;
}

not_max : (offset : ℕ) → offset < u64_max → leb u64_max offset ≡ false
not_max offset h = ground arith

take_byte :
    (c : ℕ) (rest : List ℕ) (ending : Option Text) (offset : ℕ)
    → offset < u64_max
    → take (unbounded (c ∷ rest) ending offset) ≡ ok (some c, unbounded rest ending (offset + 1))
unfolding take peek
take_byte c rest ending offset h = rw (not_max offset h) refl

scan_stay :
    (s t : Scan) (c : ℕ) (rest : List ℕ) (ending : Option Text) (offset fuel : ℕ)
    → on_byte s c ≡ stay t
    → offset < u64_max
    → rounds scan_byte (suc fuel) s (unbounded (c ∷ rest) ending offset)
      ≡ rounds scan_byte fuel t (unbounded rest ending (offset + 1))
unfolding rounds
scan_stay s t c rest ending offset fuel h h' = rw (take_byte c rest ending offset h', h) refl

scan_finished :
    (s : Scan) (c : ℕ) (rest : List ℕ) (ending : Option Text) (offset fuel : ℕ)
    → on_byte s c ≡ finished
    → offset < u64_max
    → rounds scan_byte (suc fuel) s (unbounded (c ∷ rest) ending offset)
      ≡ ok (tt, unbounded rest ending (offset + 1))
unfolding rounds
scan_finished s c rest ending offset fuel h h' = rw (take_byte c rest ending offset h', h) refl

-- The same rounds, with equal fuel, and with an equal offset.
fuel_is :
    (s : Scan) (u : Stream) (m n : ℕ) → m ≡ n → rounds scan_byte m s u ≡ rounds scan_byte n s u
fuel_is s u m n h = ap (λ k. rounds scan_byte k s u) h

offset_is :
    (fuel : ℕ) (s : Scan) (rest : List ℕ) (ending : Option Text) (o o' : ℕ)
    → o ≡ o'
    → rounds scan_byte fuel s (unbounded rest ending o)
      ≡ rounds scan_byte fuel s (unbounded rest ending o')
offset_is fuel s rest ending o o' h = ap (λ k. rounds scan_byte fuel s (unbounded rest ending k)) h

scan_steps :
    {s t : Scan} {text : List ℕ} (steps : Steps s text t) (rest : List ℕ) (ending : Option Text)
    (offset fuel : ℕ)
    → offset + length text ≤ u64_max
    → rounds scan_byte (length text + fuel) s (unbounded (text ++ rest) ending offset)
      ≡ rounds scan_byte fuel t (unbounded rest ending (offset + length text))
scan_steps (none_left s) rest ending offset fuel h =
    fuel_is s (unbounded rest ending offset) (0 + fuel) fuel (omega arith)
    ∙ offset_is fuel s rest ending offset (offset + 0) (omega arith)
scan_steps (step s t u c more h' steps) rest ending offset fuel h =
    fuel_is s (unbounded (c ∷ (more ++ rest)) ending offset) (suc (length more) + fuel)
      (suc (length more + fuel)) (omega arith)
    ∙ scan_stay s t c (more ++ rest) ending offset (length more + fuel) h' (omega (arith, h))
    ∙ scan_steps steps rest ending (offset + 1) fuel (omega (arith, h))
    ∙ offset_is fuel u rest ending (offset + 1 + length more) (offset + suc (length more))
        (omega arith)

brace-finished : on_byte (at 1) b'}' ≡ finished
unfolding on_byte on_plain
brace-finished = refl

skip_ends :
    (before rest : List ℕ) (ending : Option Text) (offset : ℕ)
    → Steps (at 1) before (at 1)
    → offset + length before < u64_max
    → rounds scan_byte
        (suc (length (before ++ b'}' ∷ rest)))
        start
        (unbounded (before ++ b'}' ∷ rest) ending offset)
      ≡ ok (tt, unbounded rest ending (offset + length before + 1))
skip_ends before rest ending offset steps h =
    fuel_is start (unbounded (before ++ b'}' ∷ rest) ending offset)
      (suc (length (before ++ b'}' ∷ rest))) (length before + suc (suc (length rest)))
      (omega (arith, length-append before (b'}' ∷ rest)))
    ∙ scan_steps steps (b'}' ∷ rest) ending offset (suc (suc (length rest))) (omega (arith, h))
    ∙ scan_finished (at 1) b'}' rest ending (offset + length before) (suc (length rest))
        brace-finished h

ending_at :
    (rest : List ℕ) (ending : Option Text) (o o' : ℕ)
    → o ≡ o'
    → Path
        (Result Error (Unit {0} × Stream))
        (ok (tt, unbounded rest ending o))
        (ok (tt, unbounded rest ending o'))
ending_at rest ending o o' h = ap (λ k. ok (tt, unbounded rest ending k)) h

-- A body that is balanced, with strings and comments as they are written, is skipped exactly: what
-- stands behind its closing brace is the rest of the input, wherever offsets fit 64 bits.
pub skip_body_balanced :
    (text rest : List ℕ) (ending : Option Text) (offset : ℕ)
    → Balanced 1 text
    → offset + length text ≤ u64_max
    → skip_body (unbounded (text ++ rest) ending offset)
      ≡ ok (tt, unbounded rest ending (offset + length text))
unfolding skip_body repeat
skip_body_balanced text rest ending offset b h =
    let e = Balanced-Ends b in
    let size = ap (length {A = ℕ}) e.splits in
    let count = length-append e.before (b'}' ∷ []) in
    subst
      (λ l.
        rounds scan_byte (suc (length l)) start (unbounded l ending offset)
        ≡ ok (tt, unbounded rest ending (offset + length text)))
      (sym (ap (λ l. l ++ rest) e.splits ∙ append_assoc e.before (b'}' ∷ []) rest))
      (skip_ends e.before rest ending offset e.steps (omega (arith, h, size, count))
        ∙ ending_at rest ending (offset + length e.before + 1) (offset + length text)
            (omega (arith, size, count)))
