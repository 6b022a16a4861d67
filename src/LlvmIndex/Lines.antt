-- ===== src/LlvmIndex/Lines.antt =====
-- What reading a line guarantees: a function definition spans from its keyword to its brace.
use optic.Prelude.{
  ℕ, zero, suc, ◌≤◌, Bool, true, false, Option, none, some, List, [], ◌∷◌, ◌++◌, append_assoc, ◌≡◌,
  refl, sym, ap, subst, ◌∙◌, arith, ◌⊎◌, inl, inr, contains, nat_eq, ◌==◌, if◌then◌else◌,
}
use optic.Prelude.Text.{codes, text_beq, text_beq_iff}
use optic.Records.LlvmDefinitionRecord.{LlvmDefinitionRecord, LlvmDefinitionKind, function}
use optic.LlvmIndex.Stream.{Stream, pure, ◌>>=◌, ◌>>◌, skip_line}
use optic.LlvmIndex.Scanner.{
  read_function_definition, keyword_bytes, read_keyword_prefix, word_ends, finish_line, read_line,
}
use optic.LlvmIndex.Runs.{
  Runs, returns, bind, weaken, on_if, Moves, Moves-trans, Reads, Reads-refl, Reads-trans,
  Reads-least,
}
use optic.LlvmIndex.Runs.Bytes.{Peeked, IsMore, on_take, nil-ne-cons, peek-Runs, skip_line-Runs}
use optic.LlvmIndex.Definitions.{Finds, step, read_function_definition-Runs}

abbrev Prefixes : ℕ → Stream → List ℕ → Stream → Type 0
Prefixes n s prefix t =
    Reads 0 s t × ((s.rest ≡ prefix ++ t.rest) × (1 ≤ n → IsMore s → Reads 1 s t))

keyword_bytes-Runs : (n : ℕ) (s : Stream) → Runs (Prefixes n s) (keyword_bytes n s)
unfolding keyword_bytes
keyword_bytes-Runs zero s = returns [] s (Reads-refl s, (refl, λ h. absurd (omega (arith, h))))
keyword_bytes-Runs (suc n) s =
    on_take s _ _
      (λ t (p, (e, e')).
        returns [] t (p, (e ∙ sym e', λ _ (b, (l, more)). absurd (nil-ne-cons b l (sym e ∙ more)))))
      λ byte t (p, e).
        on_if (byte == 10) _ _ t
          (λ _. returns (byte ∷ []) t (Reads-least 0 (omega arith) p, (e, λ _ _. p)))
          λ _. bind (keyword_bytes-Runs n t) λ others u (q, (e', _)). returns (byte ∷ others) u (
            Reads-least 0 (omega arith) (Reads-trans p q),
            (e ∙ ap (λ l. byte ∷ l) e', λ _ _. Reads-least 1 (omega arith) (Reads-trans p q)),
          )

-- A function definition, and its text.
abbrev pub IsFunction : LlvmDefinitionKind → Type 0
IsFunction kind = kind ≡ function

abbrev pub LineFound : Stream → Option LlvmDefinitionRecord → Stream → Type 0
LineFound s none t = Moves 1 s t
LineFound s (some d) t =
    Finds IsFunction s (some d) t
    × ((body : List ℕ) × (s.rest ≡ codes "define" ++ body ++ b'}' ∷ t.rest))

peeked : (s : Stream) (next : Option ℕ) (t : Stream) → Peeked s next t → Reads 0 s t
peeked s none t p = p.0
peeked s (some b) t (same, _) = subst (λ u. Reads 0 s u) (sym same) (Reads-refl s)

abbrev Defining : List ℕ → Stream → Bool → Stream → Type 0
Defining prefix s true t = Reads 0 s t × (prefix ≡ codes "define")
Defining prefix s false t = Reads 0 s t

defining :
    (prefix : List ℕ) (s : Stream) (b : Bool) (t : Stream)
    → Reads 0 s t
    → prefix ≡ codes "define"
    → Defining prefix s b t
defining prefix s true t p e = (p, e)
defining prefix s false t p e = p

defines-Runs :
    (prefix : List ℕ) (s : Stream)
    → Runs
        (Defining prefix s)
        ((if text_beq prefix (codes "define") then word_ends else pure false) s)
defines-Runs prefix s =
    on_if (text_beq prefix (codes "define")) _ _ s
      (λ h. bind (peek-Runs s) λ next t p.
        returns _ t
          (defining prefix s _ t (peeked s next t p) ((text_beq_iff prefix (codes "define")).0 h)))
      λ _. returns false s (Reads-refl s)

spans :
    {k : ℕ} {t u : Stream} (s v : Stream) (body prefix : List ℕ) (q : Moves k t u)
    → s.rest ≡ prefix ++ t.rest
    → prefix ≡ codes "define"
    → u.rest ≡ body ++ b'}' ∷ v.rest
    → s.rest ≡ codes "define" ++ (q.eaten ++ body) ++ b'}' ∷ v.rest
spans {t = t} s v body prefix q e e' h =
    e
    ∙ ap (λ l. l ++ t.rest) e'
    ∙ ap (λ l. codes "define" ++ l)
        (q.splits ∙ ap (λ l. q.eaten ++ l) h ∙ sym (append_assoc q.eaten body (b'}' ∷ v.rest)))

-- The ways on from the keyword.
line_end :
    (s t : Stream) (prefix : List ℕ)
    → Reads 1 s t
    → s.rest ≡ prefix ++ t.rest
    → (b : Bool) (u : Stream) → Defining prefix t b u
    → Runs (LineFound s) (
        (if b
            then (read_function_definition s.offset >>= λ d. pure (some d))
            else if contains prefix 10
            then pure none
            else (skip_line >> pure none))
          u)
line_end s t prefix p e true u (q, e') =
    bind (read_function_definition-Runs s u (step p.moves q.moves)) λ d v (f, (body, h)).
      returns (some d) v (f, (q.moves.eaten ++ body, spans s v body prefix q.moves e e' h))
line_end s t prefix p e false u q =
    on_if (contains prefix 10) _ _ u (λ _. returns none u (step p.moves q.moves))
      λ _.
        bind (skip_line-Runs u)
          λ _ v (r, _). returns none v (step p.moves (Moves-trans q.moves r.moves))

finish_line-Runs :
    (s t : Stream) (prefix : List ℕ)
    → Reads 1 s t
    → s.rest ≡ prefix ++ t.rest
    → Runs (LineFound s) (finish_line s.offset prefix t)
finish_line-Runs s t prefix p e =
    bind (defines-Runs prefix t) λ b u q. line_end s t prefix p e b u q

-- Nothing of the line was read.
plain_line-Runs : (s : Stream) → IsMore s → Runs (LineFound s) (finish_line s.offset [] s)
unfolding text_beq contains
plain_line-Runs s more = bind (skip_line-Runs s) λ _ t (_, p). returns none t ((p more).moves)

abbrev Prefixed : Stream → List ℕ → Stream → Type 0
Prefixed s prefix t = (Reads 1 s t × (s.rest ≡ prefix ++ t.rest)) ⊎ ((t ≡ s) × (prefix ≡ []))

line_of :
    (s : Stream)
    → IsMore s
    → (prefix : List ℕ) (t : Stream) → Prefixed s prefix t
    → Runs (LineFound s) (finish_line s.offset prefix t)
line_of s more prefix t (inl (p, e)) = finish_line-Runs s t prefix p e
line_of s more prefix t (inr (same, e)) =
    subst (λ u. Runs (LineFound s) (finish_line s.offset prefix u)) (sym same)
      (subst (λ l. Runs (LineFound s) (finish_line s.offset l s)) (sym e) (plain_line-Runs s more))

pub read_line-Runs :
    (s : Stream) (byte : ℕ) → IsMore s → Runs (LineFound s) (read_line s.offset byte s)
unfolding read_line read_keyword_prefix
read_line-Runs s byte more =
    bind {P = Prefixed s}
      (on_if (byte == b'd') _ _ s
        (λ _. weaken (keyword_bytes-Runs 6 s) λ prefix t (_, (e, p)). inl (p (omega arith) more, e))
        λ _. returns [] s (inr (refl, refl)))
      (line_of s more)
