-- ===== src/LlvmIndex/Runs.antt =====
-- What an operation on the stream guarantees: it returns with a postcondition, or fails with an
-- error of the input or the reader, and neither runs out of fuel nor fails an assertion.
pub mod Bytes
pub mod Quoted
pub mod Tokens
pub mod Reading
use optic.Prelude.{
  ℕ, zero, suc, ◌+◌, ◌-◌, ◌*◌, ◌≤◌, ◌<◌, Bool, true, false, Option, none, some, List, [], ◌∷◌, ◌++◌,
  append_assoc, ◌≡◌, refl, sym, ap, subst, ◌∙◌, inl, inr, arith, Result, ok, err, length,
  length-append, if◌then◌else◌,
}
use optic.Prelude.Text.{Text}
use optic.Records.Decimal.{u64_max}
use optic.LlvmIndex.Stream.{
  Error, invalid, expected_token, invalid_record, read_failed, assertion, out_of_fuel, Stream, Read,
  continue, Round, again, done, rounds, repeat, header_limit, is_spent, peek, take,
}

abbrev pub IsReal : Error → Type 0
IsReal (invalid at message) = Unit
IsReal (expected_token at expected) = Unit
IsReal (invalid_record at e) = Unit
IsReal (read_failed e) = Unit
IsReal (assertion message) = ⊥
IsReal out_of_fuel = ⊥

pub data Runs {A : Type 0} (P : A → Stream → Type 0) : Result Error (A × Stream) → Type 0 where
  returns : (a : A) (t : Stream) → P a t → Runs P (ok (a, t))
  fails : (e : Error) → IsReal e → Runs P (err e)

module _ {A B : Type 0} {P : A → Stream → Type 0} {Q : B → Stream → Type 0} where
  pub bind :
      {r : Result Error (A × Stream)} {f : A → Read B}
      → Runs P r
      → ((a : A) (t : Stream) → P a t → Runs Q (f a t))
      → Runs Q (continue r f)
  bind (returns a t p) h = h a t p
  bind (fails e real) h = fails e real

pub weaken :
    {A : Type 0} {P Q : A → Stream → Type 0} {r : Result Error (A × Stream)}
    → Runs P r
    → ((a : A) (t : Stream) → P a t → Q a t)
    → Runs Q r
weaken (returns a t p) h = returns a t (h a t p)
weaken (fails e real) h = fails e real

-- Both branches of a test.
pub on_test :
    {A : Type 0} {P : A → Stream → Type 0} {r r' : Result Error (A × Stream)} (b : Bool)
    → (b ≡ true → Runs P r)
    → (b ≡ false → Runs P r')
    → Runs P (if b then r else r')
on_test true h h' = h refl
on_test false h h' = h' refl

-- The same where the branches are operations.
pub on_if :
    {A : Type 0} {P : A → Stream → Type 0} (b : Bool) (m m' : Read A) (s : Stream)
    → (b ≡ true → Runs P (m s))
    → (b ≡ false → Runs P (m' s))
    → Runs P ((if b then m else m') s)
on_if true m m' s h h' = h refl
on_if false m m' s h h' = h' refl

-- Both cases of an option.
pub on_option :
    {A C : Type 0} {P : A → Stream → Type 0} (o : Option C) (m : Read A) (f : C → Read A)
    (s : Stream)
    → (o ≡ none → Runs P (m s))
    → ((c : C) → o ≡ some c → Runs P (f c s))
    → Runs P (elim o as (λ _. Read A) [ none ↦ m | some c ↦ f c ] s)
on_option none m f s h h' = h refl
on_option (some c) m f s h h' = h' c refl

-- A round goes on with the invariant and less input, or is done.
abbrev pub Turn :
    {S B : Type 0} (Inv : S → Stream → Type 0) (Q : B → Stream → Type 0)
    → Stream
    → Round S B
    → Stream
    → Type 0
Turn Inv Q s (again a) t = Inv a t × (length t.rest < length s.rest)
Turn Inv Q s (done b) t = Q b t

module _ {S B : Type 0} (body : S → Read (Round S B)) (Inv : S → Stream → Type 0)
    (Q : B → Stream → Type 0) where
  next_round :
      (fuel : ℕ) (s : Stream) (r : Round S B) (t : Stream)
      → ((a : S) → Inv a t → length t.rest < length s.rest → Runs Q (rounds body fuel a t))
      → Turn Inv Q s r t
      → Runs Q (
          elim r as (λ _. Stream → Result Error (B × Stream)) [
            | again a' ↦ λ u. rounds body fuel a' u
            | done b ↦ λ u. ok (b, u)
          ]
            t)
  next_round fuel s (again a) t ih (inv, less) = ih a inv less
  next_round fuel s (done b) t ih q = returns b t q

  rounds-Runs :
      ((a : S) (s : Stream) → Inv a s → Runs (Turn Inv Q s) (body a s))
      → (fuel : ℕ) (a : S) (s : Stream) → length s.rest < fuel
      → Inv a s
      → Runs Q (rounds body fuel a s)
  unfolding rounds
  rounds-Runs step zero a s h i = absurd (omega (arith, h))
  rounds-Runs step (suc fuel) a s h i = bind (step a s i) λ r t p.
      next_round fuel s r t (λ a' inv less. rounds-Runs step fuel a' t (omega (arith, h, less)) inv)
        p

  -- A loop whose rounds consume input ends, with what its last round establishes.
  pub repeat-Runs :
      ((a : S) (s : Stream) → Inv a s → Runs (Turn Inv Q s) (body a s))
      → (a : S) (s : Stream) → Inv a s
      → Runs Q (repeat body a s)
  unfolding repeat
  repeat-Runs step a s i = rounds-Runs step (suc (length s.rest)) a s (omega arith) i

-- Nothing is spent of the budget but what was consumed since its start.
abbrev pub Allows : ℕ → Option ℕ → Type 0
Allows offset none = Unit
Allows offset (some start) = (start ≤ offset) × (offset ≤ start + header_limit)

abbrev pub WithinBudget : Stream → Type 0
WithinBudget s = Allows s.offset s.header_start

abbrev pub HasBudget : Option ℕ → Type 0
HasBudget none = ⊥
HasBudget (some start) = Unit

abbrev pub IsActive : Stream → Type 0
IsActive s = HasBudget s.header_start

-- From one state to the other, at least `k` bytes were consumed, and counted.
pub record Moves (k : ℕ) (s t : Stream) : Type 0 where
  pub eaten : List ℕ
  pub splits : s.rest ≡ eaten ++ t.rest
  pub counts : t.offset ≡ s.offset + length eaten
  pub least : k ≤ length eaten
  pub same_ending : t.ending ≡ s.ending
  pub bounded : s.offset ≤ u64_max → t.offset ≤ u64_max

-- The header budget stays what it is, too, and is observed.
pub record Reads (k : ℕ) (s t : Stream) : Type 0 where
  pub moves : Moves k s t
  pub same_header : t.header_start ≡ s.header_start
  pub within : WithinBudget s → WithinBudget t

pub Moves-refl : (s : Stream) → Moves 0 s s
Moves-refl s = record {
  eaten = [];
  splits = refl;
  counts = omega arith;
  least = omega arith;
  same_ending = refl;
  bounded = λ h. h;
}

pub Moves-trans : {j k : ℕ} {s t u : Stream} → Moves j s t → Moves k t u → Moves (j + k) s u
Moves-trans {u = u} m n = record {
  eaten = m.eaten ++ n.eaten;
  splits = m.splits ∙ ap (λ l. m.eaten ++ l) n.splits ∙ sym (append_assoc m.eaten n.eaten u.rest);
  counts = omega (arith, m.counts, n.counts, length-append m.eaten n.eaten);
  least = omega (arith, m.least, n.least, length-append m.eaten n.eaten);
  same_ending = n.same_ending ∙ m.same_ending;
  bounded = λ h. n.bounded (m.bounded h);
}

pub Reads-refl : (s : Stream) → Reads 0 s s
Reads-refl s = record { moves = Moves-refl s; same_header = refl; within = λ h. h }

pub Reads-trans : {j k : ℕ} {s t u : Stream} → Reads j s t → Reads k t u → Reads (j + k) s u
Reads-trans m n = record {
  moves = Moves-trans m.moves n.moves;
  same_header = n.same_header ∙ m.same_header;
  within = λ h. n.within (m.within h);
}

pub Moves-eaten :
    {k : ℕ} {s t : Stream} (j : ℕ) (m : Moves k s t) → j ≤ length m.eaten → Moves j s t
Moves-eaten j m h = record {
  eaten = m.eaten;
  splits = m.splits;
  counts = m.counts;
  least = h;
  same_ending = m.same_ending;
  bounded = m.bounded;
}

pub Reads-eaten :
    {k : ℕ} {s t : Stream} (j : ℕ) (m : Reads k s t) → j ≤ length m.moves.eaten → Reads j s t
Reads-eaten j m h = record {
  moves = Moves-eaten j m.moves h;
  same_header = m.same_header;
  within = m.within;
}

pub Reads-least : {k : ℕ} {s t : Stream} (j : ℕ) → j ≤ k → Reads k s t → Reads j s t
Reads-least j h m = Reads-eaten j m (omega (arith, h, m.moves.least))

-- At least one byte: there is less input.
pub Moves-less : {k : ℕ} {s t : Stream} → Moves (suc k) s t → length t.rest < length s.rest
Moves-less {s = s} {t = t} m =
    omega (arith, m.least, ap (length {A = ℕ}) m.splits, length-append m.eaten t.rest)

pub Reads-IsActive : {k : ℕ} {s t : Stream} → Reads k s t → IsActive s → IsActive t
Reads-IsActive m a = subst HasBudget (sym m.same_header) a
