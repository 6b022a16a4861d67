-- ===== src/LlvmIndex/Scans.antt =====
-- What scanning a whole module guarantees.
use optic.Prelude.{
  ℕ, Option, none, some, List, [], ◌∷◌, ◌++◌, ◌≡◌, refl, sym, ap, subst, ◌∙◌, arith, Result, ok,
  length, length-append, All, All-append, ok-inj, ◌==◌, ==_iff,
}
use optic.Prelude.Text.{Text}
use optic.Records.LlvmDefinitionRecord.{LlvmDefinitionRecord}
use optic.LlvmIndex.Stream.{Error, Stream, again, done, new, is_ascii_whitespace}
use optic.LlvmIndex.Scanner.{append, scan, definitions_of, index}
use optic.LlvmIndex.Runs.{
  Runs, returns, fails, bind, weaken, on_if, repeat-Runs, Moves, Moves-refl, Moves-less,
}
use optic.LlvmIndex.Runs.Bytes.{on_peek, take_more-Runs}
use optic.LlvmIndex.Decoding.{IsSound}
use optic.LlvmIndex.Definitions.{move, read_global_definition-Runs}
use optic.LlvmIndex.Layout.{
  IsDescribed, Increasing, Increasing-append, Increasing-weaken, Covers, Found, global-Found,
  line-Found, length_eaten,
}
use optic.LlvmIndex.Lines.{read_line-Runs}

-- Behind a part of the input, with the definitions in it.
abbrev Scanned : Stream → List LlvmDefinitionRecord → Stream → Type 0
Scanned s ds t = Moves 0 s t × (All (IsDescribed s.rest) ds × Increasing s.offset ds t.offset)

Covers-IsDescribed :
    (s t u : Stream) (d : LlvmDefinitionRecord)
    → s.offset ≡ 0
    → Moves 0 s t
    → Covers t u d
    → IsDescribed s.rest d
Covers-IsDescribed s t u d z m c = record {
  before = m.eaten;
  text = c.text;
  after = u.rest;
  splits = m.splits ∙ ap (λ l. m.eaten ++ l) c.splits;
  starts = omega (arith, z, m.counts, c.starts);
  covers = sym c.covers;
  written = c.written;
}

pass :
    {k : ℕ} (s t u : Stream) (ds : List LlvmDefinitionRecord)
    → Scanned s ds t
    → Moves k t u
    → Scanned s ds u
pass s t u ds (m, (all, inc)) f =
    (move m f, (all, Increasing-weaken s.offset ds t.offset u.offset inc (omega (arith, f.counts))))

Found-Moves : (t u : Stream) (o : Option LlvmDefinitionRecord) → Found t o u → Moves 1 t u
Found-Moves t u none f = f
Found-Moves t u (some d) f = f.0

extend :
    (s t u : Stream) (ds : List LlvmDefinitionRecord) (o : Option LlvmDefinitionRecord)
    → s.offset ≡ 0
    → Scanned s ds t
    → Found t o u
    → Scanned s (append ds o) u
extend s t u ds none z p f = pass s t u ds p f
extend s t u ds (some d) z (m, (all, inc)) (n, c) = (
  move m n,
  (
    All-append _ ds (d ∷ []) all (Covers-IsDescribed s t u d z m c, tt),
    Increasing-append s.offset ds d u.offset
        (subst (λ x. Increasing s.offset ds x) (sym c.starts) inc)
        (omega (arith, c.starts, c.covers, n.counts, length_eaten n c.text c.splits)),
  ),
)

-- The reader has ended, without a failure.
abbrev Ended : Stream → List LlvmDefinitionRecord → Stream → Type 0
Ended s ds t = Scanned s ds t × (t.ending ≡ none)

scan-Runs : (s : Stream) → s.offset ≡ 0 → Runs (Ended s) (scan s)
unfolding scan
scan-Runs s z =
    repeat-Runs _ (Scanned s) (Ended s)
      (λ ds t p.
        on_peek t _ _ (λ u q. returns (done ds) u (pass s t u ds p q.0.moves, q.1))
          λ byte tail e.
            on_if (is_ascii_whitespace byte) _ _ t
              (λ _.
                bind (take_more-Runs t (byte, (tail, e)))
                  λ _ u q. returns (again ds) u (pass s t u ds p q.moves, Moves-less q.moves))
              λ _.
                bind {P = Found t}
                  (on_if (byte == b'@') _ _ t
                    (λ h.
                      weaken (read_global_definition-Runs t)
                        (global-Found t tail (e ∙ ap (λ c. c ∷ tail) ((==_iff byte b'@').0 h))))
                    λ _. weaken (read_line-Runs t byte (byte, (tail, e))) (line-Found t))
                  λ o u q.
                    returns (again (append ds o)) u
                      (extend s t u ds o z p q, Moves-less (Found-Moves t u o q)))
      [] s (Moves-refl s, (tt, omega arith))

-- The results of a run.
sound :
    {P : List LlvmDefinitionRecord → Stream → Type 0}
    {r : Result Error (List LlvmDefinitionRecord × Stream)}
    → Runs P r
    → IsSound (definitions_of r)
sound (returns ds t p) = tt
sound (fails e real) = real

returned :
    {P : List LlvmDefinitionRecord → Stream → Type 0}
    {r : Result Error (List LlvmDefinitionRecord × Stream)}
    → Runs P r
    → (ds : List LlvmDefinitionRecord) → definitions_of r ≡ ok ds
    → (t : Stream) × P ds t
returned {P = P} (returns ds' t p) ds h = (t, subst (λ l. P l t) (ok-inj _ refl h) p)
returned (fails e real) ds h = absurd (cc h)

-- Indexing ends on every input: with definitions, or with an error that the input, a record or the
-- reader is to blame for. No loop runs out of rounds, and no assertion or byte index fails.
pub index-IsSound : (input : List ℕ) (ending : Option Text) → IsSound (index input ending)
unfolding index new
index-IsSound input ending = sound (scan-Runs (new input ending) refl)

described :
    (input : List ℕ) (ending : Option Text) (ds : List LlvmDefinitionRecord)
    → (t : Stream) × Ended (new input ending) ds t
    → All (IsDescribed input) ds × Increasing 0 ds (length input)
unfolding new
described input ending ds (t, ((m, (all, inc)), _)) = (
  all,
  Increasing-weaken 0 ds t.offset (length input) inc
      (omega (arith, m.counts, ap (length {A = ℕ}) m.splits, length-append m.eaten t.rest)),
)

-- Where indexing returns definitions, each record's range holds, in the input, the text of a
-- definition of its kind: a function from `define` to a closing brace, an alias or ifunc from its
-- `@`. The ranges follow each other in the order of the text, without overlap, up to its end.
pub index-IsDescribed :
    (input : List ℕ) (ending : Option Text) (ds : List LlvmDefinitionRecord)
    → index input ending ≡ ok ds
    → All (IsDescribed input) ds × Increasing 0 ds (length input)
unfolding index new
index-IsDescribed input ending ds h =
    described input ending ds (returned (scan-Runs (new input ending) refl) ds h)

-- A failure of the reader is never taken for the end of the input: where indexing returns
-- definitions, the reader ended without one.
pub index_ended :
    (input : List ℕ) (ending : Option Text) (ds : List LlvmDefinitionRecord)
    → index input ending ≡ ok ds
    → ending ≡ none
unfolding index new
index_ended input ending ds h =
    let (t, ((m, _), e)) = returned (scan-Runs (new input ending) refl) ds h in
    sym m.same_ending ∙ e
