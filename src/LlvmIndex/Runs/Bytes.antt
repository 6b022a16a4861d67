-- ===== src/LlvmIndex/Runs/Bytes.antt =====
-- What reading a byte or skipping a line guarantees.
use optic.Prelude.{
  ℕ, suc, ◌+◌, ◌-◌, Bool, true, false, Option, none, some, List, [], ◌∷◌, ◌≡◌, ◌≢◌, refl, sym, ap,
  subst, ◌∙◌, arith, length, leb, lt_of_not_leb, ◌==◌, ne_of_==, length-append, if◌then◌else◌,
}
use optic.Prelude.Text.{Text}
use optic.Records.Decimal.{u64_max}
use optic.LlvmIndex.Stream.{
  Error, read_failed, Stream, Read, continue, again, done, header_limit, is_spent, peek, take,
  take_or, take_peeked, skip_line,
}
use optic.LlvmIndex.Runs.{
  IsReal, Runs, returns, fails, bind, on_test, weaken, Turn, repeat-Runs, WithinBudget, Reads,
  Reads-refl, Reads-trans, Reads-least, Reads-eaten, Moves-less,
}

-- The next byte, if there is one.
abbrev pub Peeked : Stream → Option ℕ → Stream → Type 0
Peeked s none t = Reads 0 s t × (t.ending ≡ none)
Peeked s (some byte) t = (t ≡ s) × ((tail : List ℕ) × (s.rest ≡ byte ∷ tail))

abbrev stream : List ℕ → Option Text → ℕ → Option ℕ → Stream
stream rest ending offset header = record {
  rest = rest;
  ending = ending;
  offset = offset;
  header_start = header;
}

peek_of :
    (rest : List ℕ) (ending : Option Text) (offset : ℕ) (header : Option ℕ)
    → Runs (Peeked (stream rest ending offset header)) (peek (stream rest ending offset header))
unfolding peek
peek_of (byte ∷ rest) ending offset header = returns (some byte) _ (refl, (rest, refl))
peek_of [] none offset header = returns none _ (Reads-refl _, refl)
peek_of [] (some e) offset header = fails (read_failed e) tt

pub peek-Runs : (s : Stream) → Runs (Peeked s) (peek s)
peek-Runs s = peek_of s.rest s.ending s.offset s.header_start

-- One byte is consumed, unless the input has ended.
abbrev pub Taken : Stream → Option ℕ → Stream → Type 0
Taken s none t = Reads 0 s t × ((s.rest ≡ []) × (t.rest ≡ []))
Taken s (some byte) t = Reads 1 s t × (s.rest ≡ byte ∷ t.rest)

within_after :
    (header : Option ℕ) (rest rest' : List ℕ) (ending : Option Text) (offset : ℕ)
    → is_spent (stream rest ending offset header) ≡ false
    → WithinBudget (stream rest ending offset header)
    → WithinBudget (stream rest' ending (offset + 1) header)
within_after none rest rest' ending offset h w = tt
within_after (some start) rest rest' ending offset h (low, high) =
    (omega (arith, low), omega (arith, low, high, ne_of_== (offset - start) header_limit h))

take_of :
    (rest : List ℕ) (ending : Option Text) (offset : ℕ) (header : Option ℕ)
    → Runs (Taken (stream rest ending offset header)) (take (stream rest ending offset header))
unfolding take peek
take_of [] none offset header = returns none _ (Reads-refl _, (refl, refl))
take_of [] (some e) offset header = fails (read_failed e) tt
take_of (byte ∷ rest) ending offset header =
    on_test (is_spent (stream (byte ∷ rest) ending offset header)) (λ _. fails _ tt)
      λ spent.
        on_test (leb u64_max offset) (λ _. fails _ tt)
          λ fits. returns (some byte) _ (
            record {
              moves = record {
                eaten = byte ∷ [];
                splits = refl;
                counts = omega arith;
                least = omega arith;
                same_ending = refl;
                bounded = λ h. omega (arith, lt_of_not_leb u64_max offset fits);
              };
              same_header = refl;
              within = within_after header (byte ∷ rest) rest ending offset spent;
            },
            refl,
          )

pub take-Runs : (s : Stream) → Runs (Taken s) (take s)
take-Runs s = take_of s.rest s.ending s.offset s.header_start

-- One byte, whatever it is.
abbrev pub Byte : Stream → ℕ → Stream → Type 0
Byte s byte t = Taken s (some byte) t

-- The two ways on from a byte that may be there.
module _ {A : Type 0} {P : A → Stream → Type 0} (s : Stream) (m : Read A) (f : ℕ → Read A) where
  after_take :
      ((t : Stream) → Taken s none t → Runs P (m t))
      → ((byte : ℕ) (t : Stream) → Taken s (some byte) t → Runs P (f byte t))
      → (next : Option ℕ) (t : Stream) → Taken s next t
      → Runs P (elim next as (λ _. Read A) [ none ↦ m | some byte ↦ f byte ] t)
  after_take h h' none t p = h t p
  after_take h h' (some byte) t p = h' byte t p

  pub on_take :
      ((t : Stream) → Taken s none t → Runs P (m t))
      → ((byte : ℕ) (t : Stream) → Taken s (some byte) t → Runs P (f byte t))
      → Runs P
          (continue (take s) (λ next. elim next as (λ _. Read A) [ none ↦ m | some byte ↦ f byte ]))
  on_take h h' = bind (take-Runs s) (after_take h h')

  after_peek :
      ((t : Stream) → Peeked s none t → Runs P (m t))
      → ((byte : ℕ) (tail : List ℕ) → s.rest ≡ byte ∷ tail → Runs P (f byte s))
      → (next : Option ℕ) (t : Stream) → Peeked s next t
      → Runs P (elim next as (λ _. Read A) [ none ↦ m | some byte ↦ f byte ] t)
  after_peek h h' none t p = h t p
  after_peek h h' (some byte) t (same, (tail, e)) =
      subst (λ u. Runs P (f byte u)) (sym same) (h' byte tail e)

  pub on_peek :
      ((t : Stream) → Peeked s none t → Runs P (m t))
      → ((byte : ℕ) (tail : List ℕ) → s.rest ≡ byte ∷ tail → Runs P (f byte s))
      → Runs P
          (continue (peek s) (λ next. elim next as (λ _. Read A) [ none ↦ m | some byte ↦ f byte ]))
  on_peek h h' = bind (peek-Runs s) (after_peek h h')

pub take_or-Runs :
    (e : ℕ → Error) (s : Stream)
    → ((at : ℕ) → IsReal (e at))
    → Runs (λ byte t. Taken s (some byte) t) (take_or e s)
take_or-Runs e s real = on_take s _ _ (λ t _. fails _ (real t.offset)) λ byte t p. returns byte t p

-- The input has not ended.
abbrev pub IsMore : Stream → Type 0
IsMore s = (byte : ℕ) × ((tail : List ℕ) × (s.rest ≡ byte ∷ tail))

pub nil-ne-cons : (x : ℕ) (xs : List ℕ) → [] ≢ x ∷ xs
nil-ne-cons x xs h = cc

-- Behind a look at a byte, the byte is read.
pub take_peeked-Runs :
    (s : Stream) → IsMore s → Runs (λ byte t. Taken s (some byte) t) (take_peeked s)
take_peeked-Runs s (byte, (tail, more)) =
    on_take s _ _ (λ t (p, (e, _)). absurd (nil-ne-cons byte tail (sym e ∙ more)))
      λ b t p. returns b t p

Taken-more : (s : Stream) → IsMore s → (next : Option ℕ) (t : Stream) → Taken s next t → Reads 1 s t
Taken-more s (byte, (tail, more)) none t (p, (e, _)) = absurd (nil-ne-cons byte tail (sym e ∙ more))
Taken-more s more (some b) t p = p.0

pub take_more-Runs : (s : Stream) → IsMore s → Runs (λ _ t. Reads 1 s t) (take s)
take_more-Runs s more = weaken (take-Runs s) (Taken-more s more)

-- A round that consumes a byte, with which the loop goes on or ends.
pub on_byte :
    {S B : Type 0} (Inv : S → Stream → Type 0) (Q : B → Stream → Type 0) (b : Bool) (s t u : Stream)
    (last : B) (next : S) {k : ℕ}
    → Reads (suc k) t u
    → Q last u
    → Inv next u
    → Turn Inv Q t (if b then done last else again next) u
on_byte Inv Q true s t u last next p q i = q
on_byte Inv Q false s t u last next p q i = (i, Moves-less p.moves)

-- What ends with the input has read all of it.
Reads-all : {s t : Stream} → Reads 0 s t → t.rest ≡ [] → IsMore s → Reads 1 s t
Reads-all {s = s} {t = t} m h (byte, (tail, e)) = Reads-eaten 1 m (
    omega (
      arith,
      ap (length {A = ℕ}) (sym e ∙ m.moves.splits),
      length-append m.moves.eaten t.rest,
      ap (length {A = ℕ}) h,
    ))

-- To the end of the line: at least one byte, where there is one.
pub skip_line-Runs :
    (s : Stream) → Runs (λ _ t. Reads 0 s t × (IsMore s → Reads 1 s t)) (skip_line s)
unfolding skip_line
skip_line-Runs s =
    repeat-Runs _ (λ _ t. Reads 0 s t) (λ _ t. Reads 0 s t × (IsMore s → Reads 1 s t))
      (λ a t i.
        on_take t _ _
          (λ u p. returns _ u (Reads-trans i p.0, λ more. Reads-all (Reads-trans i p.0) p.1.1 more))
          λ byte u p.
            let q = Reads-trans i p.0 in
            returns _ u (
              on_byte _ _ (byte == 10) s t u tt tt p.0 (Reads-least 0 (omega arith) q, λ _. q)
                (Reads-least 0 (omega arith) q)))
      tt s (Reads-refl s)
