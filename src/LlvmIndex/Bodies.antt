-- ===== src/LlvmIndex/Bodies.antt =====
-- What skipping a function body guarantees.
use optic.Prelude.{ℕ, Option, none, some, List, ◌∷◌, ◌++◌, ◌≡◌, refl, ap, ◌∙◌, arith}
use optic.LlvmIndex.Stream.{invalid, Stream, Read, fail, Round}
use optic.LlvmIndex.Body.{
  Scan, start, Verdict, stay, finished, bad_escape, bad_newline, on_plain, on_byte, conclude,
  skip_body,
}
use optic.LlvmIndex.Runs.{
  Runs, returns, fails, bind, Turn, repeat-Runs, Reads, Reads-refl, Reads-trans, Reads-least,
  Moves-less,
}
use optic.LlvmIndex.Runs.Bytes.{Taken, take-Runs}

-- The bytes between two states, the last of which closes the body.
abbrev pub Closes : Stream → Unit {0} → Stream → Type 0
Closes s a t = Reads 1 s t × ((body : List ℕ) × (s.rest ≡ body ++ b'}' ∷ t.rest))

-- Only a closing brace ends the body.
on_byte-finished : (s : Scan) (byte : ℕ) → on_byte s byte ≡ finished → byte ≡ b'}'
unfolding on_byte on_plain
on_byte-finished s byte h = ground arith

concluded :
    (s t u : Stream) (scan : Scan) (byte : ℕ) (verdict : Verdict)
    → on_byte scan byte ≡ verdict
    → Reads 0 s t
    → Taken t (some byte) u
    → Runs (Turn (λ (_ : Scan) t. Reads 0 s t) (Closes s) t) (conclude u.offset verdict u)
concluded s t u scan byte (stay scan') h p q =
    returns _ u (Reads-least 0 (omega arith) (Reads-trans p q.0), Moves-less q.0.moves)
concluded s t u scan byte finished h p q = returns _ u (
  Reads-trans p q.0,
  (
    p.moves.eaten,
    p.moves.splits
        ∙ ap (λ l. p.moves.eaten ++ l) (q.1 ∙ ap (λ c. c ∷ u.rest) (on_byte-finished scan byte h)),
  ),
)
concluded s t u scan byte bad_escape h p q = fails _ tt
concluded s t u scan byte bad_newline h p q = fails _ tt

body_round :
    (s t : Stream) (scan : Scan)
    → Reads 0 s t
    → (next : Option ℕ) (u : Stream) → Taken t next u
    → Runs (Turn (λ (_ : Scan) t. Reads 0 s t) (Closes s) t) (
        elim next as (λ _. Read (Round Scan (Unit {0}))) [
          | none ↦ fail (invalid u.offset "Expected a closing LLVM body brace, got EOF")
          | some byte ↦ conclude u.offset (on_byte scan byte)
        ]
          u)
body_round s t scan p none u q = fails _ tt
body_round s t scan p (some byte) u q = concluded s t u scan byte (on_byte scan byte) refl p q

pub skip_body-Runs : (s : Stream) → Runs (Closes s) (skip_body s)
unfolding skip_body
skip_body-Runs s =
    repeat-Runs _ (λ _ t. Reads 0 s t) (Closes s)
      (λ scan t p. bind (take-Runs t) λ next u q. body_round s t scan p next u q) start s
      (Reads-refl s)
