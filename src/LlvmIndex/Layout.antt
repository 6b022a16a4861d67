-- ===== src/LlvmIndex/Layout.antt =====
-- What the index says: where the definitions of a module lie.
use optic.Prelude.{
  ℕ, ◌+◌, ◌≤◌, Option, none, some, List, [], ◌∷◌, ◌++◌, append_assoc, ◌≡◌, refl, sym, ap, subst,
  ◌∙◌, arith, length, length-append,
}
use optic.Prelude.Text.{codes}
use optic.Records.LlvmDefinitionRecord.{
  LlvmDefinitionRecord, LlvmDefinitionKind, function, direct_alias, expression_alias, ifunc,
}
use optic.LlvmIndex.Stream.{Stream}
use optic.LlvmIndex.Runs.{Moves}
use optic.LlvmIndex.Runs.Quoted.{head_eq}
use optic.LlvmIndex.Definitions.{Finds, IsAlias}
use optic.LlvmIndex.Lines.{LineFound}

-- The text of a definition: a function from its keyword to a closing brace, an alias or ifunc from
-- its `@`.
abbrev pub IsWritten : LlvmDefinitionKind → List ℕ → Type 0
IsWritten function text = (body : List ℕ) × (text ≡ codes "define" ++ body ++ b'}' ∷ [])
IsWritten _ text = (body : List ℕ) × (text ≡ b'@' ∷ body)

-- Where the record says, the input has the text of such a definition.
pub record IsDescribed (input : List ℕ) (d : LlvmDefinitionRecord) : Type 0 where
  pub before : List ℕ
  pub text : List ℕ
  pub after : List ℕ
  pub splits : input ≡ before ++ (text ++ after)
  pub starts : length before ≡ d.range.start
  pub covers : length text ≡ d.range.length
  pub written : IsWritten d.kind text

-- One after the other, between two offsets.
abbrev pub Increasing : ℕ → List LlvmDefinitionRecord → ℕ → Type 0
Increasing low [] high = low ≤ high
Increasing low (d ∷ ds) high =
    (low ≤ d.range.start) × Increasing (d.range.start + d.range.length) ds high

pub Increasing-append :
    (low : ℕ) (ds : List LlvmDefinitionRecord) (d : LlvmDefinitionRecord) (high : ℕ)
    → Increasing low ds d.range.start
    → d.range.start + d.range.length ≤ high
    → Increasing low (ds ++ d ∷ []) high
Increasing-append low [] d high h h' = (h, h')
Increasing-append low (e ∷ ds) d high h h' =
    (h.0, Increasing-append (e.range.start + e.range.length) ds d high h.1 h')

pub Increasing-weaken :
    (low : ℕ) (ds : List LlvmDefinitionRecord) (high high' : ℕ)
    → Increasing low ds high
    → high ≤ high'
    → Increasing low ds high'
Increasing-weaken low [] high high' h h' = omega (arith, h, h')
Increasing-weaken low (e ∷ ds) high high' h h' =
    (h.0, Increasing-weaken (e.range.start + e.range.length) ds high high' h.1 h')

-- Between two states stands the definition that was found, if any.
pub record Covers (s t : Stream) (d : LlvmDefinitionRecord) : Type 0 where
  pub text : List ℕ
  pub splits : s.rest ≡ text ++ t.rest
  pub starts : d.range.start ≡ s.offset
  pub covers : d.range.length ≡ length text
  pub written : IsWritten d.kind text

abbrev pub Found : Stream → Option LlvmDefinitionRecord → Stream → Type 0
Found s none t = Moves 1 s t
Found s (some d) t = Moves 1 s t × Covers s t d

first_eaten :
    (c : ℕ) (tail eaten rest : List ℕ)
    → c ∷ tail ≡ eaten ++ rest
    → 1 ≤ length eaten
    → (body : List ℕ) × (eaten ≡ c ∷ body)
first_eaten c tail [] rest e h = absurd (omega (arith, h))
first_eaten c tail (b ∷ eaten) rest e h =
    (eaten, ap (λ x. x ∷ eaten) (sym (head_eq c b tail (eaten ++ rest) e)))

IsAlias-IsWritten :
    (kind : LlvmDefinitionKind) (text : List ℕ)
    → IsAlias kind
    → (body : List ℕ) × (text ≡ b'@' ∷ body)
    → IsWritten kind text
IsAlias-IsWritten function text h w = elim h [ ]
IsAlias-IsWritten (direct_alias target) text h w = w
IsAlias-IsWritten expression_alias text h w = w
IsAlias-IsWritten ifunc text h w = w

pub global-Found :
    (s : Stream) (tail : List ℕ)
    → s.rest ≡ b'@' ∷ tail
    → (o : Option LlvmDefinitionRecord) (t : Stream) → Finds IsAlias s o t
    → Found s o t
global-Found s tail e none t m = m
global-Found s tail e (some d) t (m, (starts, (covers, kind))) = (
  m,
  record {
    text = m.eaten;
    splits = m.splits;
    starts = starts;
    covers = omega (arith, covers, m.counts);
    written =
        IsAlias-IsWritten d.kind m.eaten kind
          (first_eaten b'@' tail m.eaten t.rest (sym e ∙ m.splits) m.least);
  },
)

pub length_eaten :
    {k : ℕ} {s t : Stream} (m : Moves k s t) (text : List ℕ)
    → s.rest ≡ text ++ t.rest
    → length m.eaten ≡ length text
length_eaten {t = t} m text e = omega (
  arith,
  ap (length {A = ℕ}) (sym m.splits ∙ e),
  length-append m.eaten t.rest,
  length-append text t.rest,
)

pub line-Found :
    (s : Stream) (o : Option LlvmDefinitionRecord) (t : Stream) → LineFound s o t → Found s o t
line-Found s none t m = m
line-Found s (some d) t ((m, (starts, (covers, kind))), (body, e)) =
    let splits = e ∙ ap (λ l. codes "define" ++ l) (sym (append_assoc body (b'}' ∷ []) t.rest)) in
    (
      m,
      record {
        text = codes "define" ++ body ++ b'}' ∷ [];
        splits = splits;
        starts = starts;
        covers =
            omega (
              arith,
              covers,
              m.counts,
              length_eaten m (codes "define" ++ body ++ b'}' ∷ []) splits,
            );
        written =
            subst (λ k. IsWritten k (codes "define" ++ body ++ b'}' ∷ [])) (sym kind) (body, refl);
      },
    )
