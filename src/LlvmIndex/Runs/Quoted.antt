-- ===== src/LlvmIndex/Runs/Quoted.antt =====
-- What reading the bytes of a token guarantees: quoted bytes have the form that decoding relies on.
use optic.Prelude.{
  ℕ, Bool, true, false, not, ◌||◌, Option, none, some, List, [], ◌∷◌, ◌++◌, append_assoc,
  append-nil, ◌≡◌, refl, sym, ap, subst, ◌∙◌, arith, ◌==◌, ==_iff, if◌then◌else◌,
}
use optic.LlvmIndex.Stream.{Stream, Read, take_peeked, is_ascii_hexdigit, backslash, quote}
use optic.LlvmIndex.Token.{peeks, escape_digit, complete_quoted_escape, complete_quoted_token}
use optic.LlvmIndex.Runs.{
  Runs, returns, fails, bind, weaken, on_if, repeat-Runs, Reads, Reads-refl, Reads-trans,
  Reads-least, Moves-less,
}
use optic.LlvmIndex.Runs.Bytes.{Peeked, peek-Runs, take_or-Runs, take_peeked-Runs}

-- The bytes between two quotes: no quote or backslash but in an escape.
pub data Quoted : List ℕ → Type 0 where
  nothing : Quoted []
  character :
      (c : ℕ) (rest : List ℕ)
      → (c == quote) ≡ false
      → (c == backslash) ≡ false
      → Quoted rest
      → Quoted (c ∷ rest)
  backslashes : (rest : List ℕ) → Quoted rest → Quoted (backslash ∷ backslash ∷ rest)
  digits :
      (first second : ℕ) (rest : List ℕ)
      → is_ascii_hexdigit first ≡ true
      → is_ascii_hexdigit second ≡ true
      → Quoted rest
      → Quoted (backslash ∷ first ∷ second ∷ rest)

pub Quoted-append : {a b : List ℕ} → Quoted a → Quoted b → Quoted (a ++ b)
Quoted-append nothing q = q
Quoted-append {b = b} (character c rest h h' p) q = character c (rest ++ b) h h' (Quoted-append p q)
Quoted-append {b = b} (backslashes rest p) q = backslashes (rest ++ b) (Quoted-append p q)
Quoted-append {b = b} (digits x y rest h h' p) q = digits x y (rest ++ b) h h' (Quoted-append p q)

-- More bytes, of some form, were read behind these.
abbrev pub Extends : (List ℕ → Type 0) → List ℕ → List ℕ → Type 0
Extends P bytes bytes' = (more : List ℕ) × (P more × (bytes' ≡ bytes ++ more))

-- A byte that passes the test comes next.
abbrev pub IsNext : (ℕ → Bool) → Stream → Type 0
IsNext test s = (byte : ℕ) × ((tail : List ℕ) × ((s.rest ≡ byte ∷ tail) × (test byte ≡ true)))

-- Whether such a byte comes next.
abbrev pub Sees : Stream → (ℕ → Bool) → Bool → Stream → Type 0
Sees s test true t = Reads 0 s t × IsNext test t
Sees s test false t = Reads 0 s t

seen :
    (s : Stream) (test : ℕ → Bool) (b : Bool) (t : Stream)
    → Reads 0 s t
    → (b ≡ true → IsNext test t)
    → Sees s test b t
seen s test true t p m = (p, m refl)
seen s test false t p m = p

pub sees :
    (s : Stream) (test : ℕ → Bool) (next : Option ℕ) (t : Stream)
    → Peeked s next t
    → Sees s test (elim next [ none ↦ false | some b ↦ test b ]) t
sees s test none t p = p.0
sees s test (some b) t (same, (tail, e)) =
    seen s test (test b) t (subst (λ u. Reads 0 s u) (sym same) (Reads-refl s))
      λ h. (b, (tail, (ap (λ u. u.rest) same ∙ e, h)))

pub peeks-Runs : (s : Stream) (byte : ℕ) → Runs (Sees s (λ b. b == byte)) (peeks byte s)
peeks-Runs s byte = bind (peek-Runs s) λ next t p. returns _ t (sees s (λ b. b == byte) next t p)

pub on_seen :
    {A : Type 0} {P : A → Stream → Type 0} {s : Stream} {test : ℕ → Bool} (b : Bool) (m m' : Read A)
    (t : Stream)
    → Sees s test b t
    → (Reads 0 s t → IsNext test t → Runs P (m t))
    → (Reads 0 s t → Runs P (m' t))
    → Runs P ((if b then m else m') t)
on_seen true m m' t (p, more) h h' = h p more
on_seen false m m' t p h h' = h' p

pub head_eq : (a b : ℕ) (l r : List ℕ) → a ∷ l ≡ b ∷ r → a ≡ b
head_eq a b l r h = cc

pub tail_eq : (a b : ℕ) (l r : List ℕ) → a ∷ l ≡ b ∷ r → l ≡ r
tail_eq a b l r h = cc

-- A byte that was seen is the one that is read.
pub take_next-Runs :
    (s : Stream) (test : ℕ → Bool)
    → IsNext test s
    → Runs (λ b t. Reads 1 s t × (test b ≡ true)) (take_peeked s)
take_next-Runs s test (byte, (tail, (e, h))) =
    weaken (take_peeked-Runs s (byte, (tail, e)))
      λ b t p. (p.0, subst (λ c. test c ≡ true) (sym (head_eq b byte t.rest tail (sym p.1 ∙ e))) h)

not-false : {b : Bool} → not b ≡ false → b ≡ true
not-false {b = true} h = refl
not-false {b = false} h = cc

-- One of the digits.
escape_digit-Runs :
    (s : Stream) → Runs (λ d t. Reads 1 s t × (is_ascii_hexdigit d ≡ true)) (escape_digit s)
unfolding escape_digit
escape_digit-Runs s = bind (take_or-Runs _ s (λ at. tt)) λ d t p.
    on_if (not (is_ascii_hexdigit d)) _ _ t (λ _. fails _ tt) λ h. returns d t (p.0, not-false h)

-- Behind its backslash, an escape is completed.
pub complete_quoted_escape-Runs :
    (bytes : List ℕ) (s : Stream)
    → Runs
        (λ bytes' t. Reads 0 s t × Extends (λ more. Quoted (backslash ∷ more)) bytes bytes')
        (complete_quoted_escape bytes s)
unfolding complete_quoted_escape
complete_quoted_escape-Runs bytes s = bind (peeks-Runs s backslash) λ b t p.
    on_seen b _ _ t p
      (λ i more. bind (take_next-Runs t _ more) λ c u q. returns _ u (
        Reads-least 0 (omega arith) (Reads-trans i q.0),
        (
          c ∷ [],
          (
            subst (λ x. Quoted (backslash ∷ x ∷ [])) (sym ((==_iff c backslash).0 q.1))
                (backslashes [] nothing),
            refl,
          ),
        ),
      ))
      (λ i. bind (escape_digit-Runs t) λ x u q. bind (escape_digit-Runs u) λ y v r. returns _ v (
        Reads-least 0 (omega arith) (Reads-trans i (Reads-trans q.0 r.0)),
        (x ∷ y ∷ [], (digits x y [] q.1 r.1 nothing, refl)),
      ))

abbrev pub IsClosed : List ℕ → Type 0
IsClosed more = (body : List ℕ) × (Quoted body × (more ≡ body ++ quote ∷ []))

pub extend :
    {P R : List ℕ → Type 0} {bytes' bytes'' : List ℕ} (bytes more : List ℕ)
    → ((m : List ℕ) → P m → R (m ++ more))
    → Extends P bytes bytes'
    → bytes'' ≡ bytes' ++ more
    → Extends R bytes bytes''
extend bytes more f (m, (p, e)) h =
    (m ++ more, (f m p, h ∙ ap (λ l. l ++ more) e ∙ append_assoc bytes m more))

-- The bytes through the closing quote.
pub complete_quoted_token-Runs :
    (bytes : List ℕ) (s : Stream)
    → Runs (λ bytes' t. Reads 1 s t × Extends IsClosed bytes bytes') (complete_quoted_token bytes s)
unfolding complete_quoted_token
complete_quoted_token-Runs bytes s =
    repeat-Runs _ (λ bytes' t. Reads 0 s t × Extends Quoted bytes bytes') _
      (λ bytes' t (i, x). bind (take_or-Runs _ t (λ at. tt)) λ c u p.
        on_if (c == quote) _ _ u
          (λ h. returns _ u (
            Reads-trans i p.0,
            extend bytes _ (λ m q. (m, (q, ap (λ b. m ++ b ∷ []) ((==_iff c quote).0 h)))) x refl,
          ))
          λ plain.
            on_if (c == 10 || c == 13) _ _ u (λ _. fails _ tt)
              λ _.
                on_if (c == backslash) _ _ u
                  (λ h. bind (complete_quoted_escape-Runs _ u) λ bytes'' v (r, (more, (q, e))).
                    returns _ v (
                      (
                        Reads-least 0 (omega arith) (Reads-trans i (Reads-trans p.0 r)),
                        extend bytes _
                            (λ m q'.
                              Quoted-append q'
                                (subst (λ b. Quoted (b ∷ more)) (sym ((==_iff c backslash).0 h)) q))
                            x (e ∙ append_assoc bytes' (c ∷ []) more),
                      ),
                      Moves-less (Reads-trans p.0 r).moves,
                    ))
                  λ escape. returns _ u (
                    (
                      Reads-least 0 (omega arith) (Reads-trans i p.0),
                      extend bytes _ (λ m q. Quoted-append q (character c [] plain escape nothing))
                          x refl,
                    ),
                    Moves-less p.0.moves,
                  ))
      bytes s (Reads-refl s, ([], (nothing, sym (append-nil bytes))))
