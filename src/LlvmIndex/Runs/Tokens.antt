-- ===== src/LlvmIndex/Runs/Tokens.antt =====
-- What reading a token guarantees: it consumes a byte, and its quoted bytes are closed.
use optic.Prelude.{
  ℕ, true, not, ◌&&◌, ◌||◌, List, [], ◌∷◌, ◌++◌, ◌≡◌, refl, sym, subst, ◌∙◌, arith, ◌==◌, ==_iff,
}
use optic.Prelude.Text.{is_ascii_digit}
use optic.LlvmIndex.Stream.{Stream, is_word, quote}
use optic.LlvmIndex.Token.{complete_word, complete_token, quote_follows, is_sigil}
use optic.LlvmIndex.Runs.{
  Runs, returns, bind, weaken, on_if, repeat-Runs, Reads, Reads-refl, Reads-trans, Reads-least,
  Moves-less,
}
use optic.LlvmIndex.Runs.Bytes.{peek-Runs, nil-ne-cons}
use optic.LlvmIndex.Runs.Quoted.{
  IsClosed, Extends, Sees, sees, extend, head_eq, tail_eq, peeks-Runs, on_seen, take_next-Runs,
  complete_quoted_token-Runs,
}

-- A quoted symbol's bytes end with its closing quote.
abbrev pub IsValidated : List ℕ → Type 0
IsValidated bytes = (more : List ℕ) → bytes ≡ b'@' ∷ quote ∷ more → IsClosed more

abbrev IsWordBytes : List ℕ → Type 0
IsWordBytes [] = Unit
IsWordBytes (c ∷ rest) = is_word c ≡ true

IsWordBytes-append :
    (b : ℕ) (m : List ℕ) → IsWordBytes m → is_word b ≡ true → IsWordBytes (m ++ b ∷ [])
IsWordBytes-append b [] p w = w
IsWordBytes-append b (c ∷ m) p w = p

complete_word-Runs :
    (c : ℕ) (s : Stream)
    → Runs (λ bytes t. Reads 0 s t × Extends IsWordBytes (c ∷ []) bytes) (complete_word (c ∷ []) s)
unfolding complete_word
complete_word-Runs c s =
    repeat-Runs _ (λ bytes t. Reads 0 s t × Extends IsWordBytes (c ∷ []) bytes) _
      (λ bytes t (i, x). bind (peek-Runs t) λ next u p.
        on_seen _ _ _ u (sees t is_word next u p)
          (λ j more. bind (take_next-Runs u _ more) λ b v (q, w). returns _ v (
            (
              Reads-least 0 (omega arith) (Reads-trans i (Reads-trans j q)),
              extend (c ∷ []) _ (λ m p. IsWordBytes-append b m p w) x refl,
            ),
            Moves-less (Reads-trans j q).moves,
          ))
          λ j. returns _ u (Reads-trans i j, x))
      (c ∷ []) s (Reads-refl s, ([], (tt, refl)))

quote_follows-Runs :
    (first : ℕ) (s : Stream) → Runs (Sees s (λ b. b == quote)) (quote_follows first s)
quote_follows-Runs first s =
    on_if (is_sigil first) _ _ s (λ _. peeks-Runs s quote) λ _. returns _ s (Reads-refl s)

-- Each form of a token is validated.
string-IsValidated :
    (first : ℕ) (bytes : List ℕ)
    → first ≡ quote
    → Extends IsClosed (first ∷ []) bytes
    → IsValidated bytes
string-IsValidated first bytes h (m, (p, e)) more h' =
    absurd (omega (arith, h, head_eq first b'@' m (quote ∷ more) (sym e ∙ h')))

quoted-IsValidated :
    (first second : ℕ) (bytes : List ℕ)
    → Extends IsClosed (first ∷ second ∷ []) bytes
    → IsValidated bytes
quoted-IsValidated first second bytes (m, (p, e)) more h =
    subst IsClosed
      (tail_eq second quote m more (tail_eq first b'@' (second ∷ m) (quote ∷ more) (sym e ∙ h))) p

single-IsValidated : (first : ℕ) → IsValidated (first ∷ [])
single-IsValidated first more h =
    absurd (nil-ne-cons quote more (tail_eq first b'@' [] (quote ∷ more) h))

quote-IsWordBytes : (more : List ℕ) → ¬ IsWordBytes (quote ∷ more)
unfolding is_word is_ascii_digit
quote-IsWordBytes more h = cc

word-IsValidated :
    (first : ℕ) (bytes : List ℕ) → Extends IsWordBytes (first ∷ []) bytes → IsValidated bytes
word-IsValidated first bytes (m, (p, e)) more h =
    absurd (
      quote-IsWordBytes more
        (subst IsWordBytes (tail_eq first b'@' m (quote ∷ more) (sym e ∙ h)) p))

-- A token is completed behind its first byte.
pub complete_token-Runs :
    (first : ℕ) (s : Stream)
    → Runs (λ bytes t. Reads 0 s t × IsValidated bytes) (complete_token first s)
unfolding complete_token
complete_token-Runs first s =
    on_if (first == quote) _ _ s
      (λ h. weaken (complete_quoted_token-Runs _ s) λ bytes t (p, x). (
        Reads-least 0 (omega arith) p,
        string-IsValidated first bytes ((==_iff first quote).0 h) x,
      ))
      λ plain. bind (quote_follows-Runs first s) λ b t p.
        on_seen b _ _ t p
          (λ i more. bind (take_next-Runs t _ more) λ c u (q, e).
            weaken (complete_quoted_token-Runs _ u) λ bytes v (r, x). (
              Reads-least 0 (omega arith) (Reads-trans i (Reads-trans q r)),
              quoted-IsValidated first c bytes x,
            ))
          (λ i.
            on_if (not (is_word first) && not (is_sigil first || first == b'!')) _ _ t
              (λ _. returns _ t (i, single-IsValidated first))
              λ _.
                weaken (complete_word-Runs first t)
                  λ bytes u (q, x). (Reads-trans i q, word-IsValidated first bytes x))
