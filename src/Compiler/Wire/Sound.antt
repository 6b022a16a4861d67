-- ===== src/Compiler/Wire/Sound.antt =====
-- What every decoder of a field satisfies: it never runs out of fuel, what it leaves is not longer
-- than what it was given, and behind what it reads it looks at nothing.
use optic.Prelude.{
  ℕ, ◌≤◌, ◌<◌, ◌≢◌, ◌≡◌, refl, ap, ◌∙◌, ok, err, arith, Result, Option, none, some, List, [], ◌∷◌,
  ◌++◌, length, take, drop, length-append, length-drop, leb, Bool-cases, inl, inr, String, zero,
  suc,
}
use optic.Records.Validation.{FilePath}
use optic.Store.{IoError}
use optic.Compiler.{Error}
use optic.Compiler.Wire.{
  Input, Decode, Failure, exhausted, pure, lift, continue, ◌>>=◌, ◌>>◌, read_exact, read_u32,
  read_u64, read_bool, read_string, bool_of, string_of, from_le_bytes, cut_short,
}

-- The input with more bytes behind it, and another end.
abbrev pub followed : Input → List ℕ → Option IoError → Input
followed s more ending = record { bytes = s.bytes ++ more; ending = ending }

pub record IsDecoder {A : Type 0} (d : Decode A) : Type 0 where
  pub real : (s : Input) → d s ≢ err exhausted
  pub shrinks : (s t : Input) (a : A) → d s ≡ ok (a, t) → length t.bytes ≤ length s.bytes
  pub extends :
      (s t : Input) (a : A) (more : List ℕ) (ending : Option IoError)
      → d s ≡ ok (a, t)
      → d (followed s more ending) ≡ ok (a, followed t more ending)

module _ {A B : Type 0} where
  -- Inversion of a step that succeeds.
  pub continue-ok :
      (r : Result Failure (A × Input)) (f : A → Decode B) {b : B} {u : Input}
      → continue r f ≡ ok (b, u)
      → (a : A) × (t : Input) × (r ≡ ok (a, t)) × (f a t ≡ ok (b, u))
  continue-ok (ok (a, t)) f h = (a, t, refl, h)
  continue-ok (err e) f h = absurd (cc h)

  pub continue-real :
      (r : Result Failure (A × Input)) (f : A → Decode B)
      → r ≢ err exhausted
      → ((a : A) (t : Input) → r ≡ ok (a, t) → f a t ≢ err exhausted)
      → continue r f ≢ err exhausted
  continue-real (ok (a, t)) f h k = k a t refl
  continue-real (err e) f h k = λ p. h (ground (arith, p))

  pub bind :
      {d : Decode A} {f : A → Decode B}
      → IsDecoder d
      → ((a : A) → IsDecoder (f a))
      → IsDecoder (d >>= f)
  bind {d} {f} m k = record {
    real = λ s. continue-real (d s) f (m.real s) (λ a t _. (k a).real t);
    shrinks = λ s u b h.
        let (a, t, first, second) = continue-ok (d s) f h in
        omega (arith, m.shrinks s t a first, (k a).shrinks t u b second);
    extends = λ s u b more ending h.
        let (a, t, first, second) = continue-ok (d s) f h in
        ap (λ r. continue r f) (m.extends s t a more ending first)
        ∙ (k a).extends t u b more ending second;
  }

module _ {A : Type 0} where
  pub pure-IsDecoder : (a : A) → IsDecoder (pure a)
  pure-IsDecoder a = record {
    real = λ s h. cc h;
    shrinks = λ s t b h. ground arith;
    extends = λ s t b more ending h. ground arith;
  }

  pub lift-IsDecoder : (r : Result Error A) → IsDecoder (lift r)
  lift-IsDecoder (ok a) = pure-IsDecoder a
  lift-IsDecoder (err e) = record {
    real = λ s h. cc h;
    shrinks = λ s t b h. absurd (cc h);
    extends = λ s t b more ending h. absurd (cc h);
  }

same_rest : {A : Type 0} {a b : A} {s t : Input} → pure a s ≡ ok (b, t) → s ≡ t
same_rest h = ground (arith, h)

pub bind_unit :
    {B : Type 0} {d : Decode (Unit {0})} {k : Decode B}
    → IsDecoder d
    → IsDecoder k
    → IsDecoder (d >> k)
bind_unit m k = bind m (λ _. k)

pub drop-append :
    (n : ℕ) (xs more : List ℕ) → n ≤ length xs → drop n (xs ++ more) ≡ drop n xs ++ more
drop-append zero xs more h = refl
drop-append (suc n) [] more h = absurd (omega (arith, h))
drop-append (suc n) (x ∷ xs) more h = drop-append n xs more (omega (arith, h))

pub take-append : (n : ℕ) (xs more : List ℕ) → n ≤ length xs → take n (xs ++ more) ≡ take n xs
take-append zero xs more h = refl
take-append (suc n) [] more h = absurd (omega (arith, h))
take-append (suc n) (x ∷ xs) more h = ap (λ l. x ∷ l) (take-append n xs more (omega (arith, h)))

module _ (path : FilePath) where
  lift-cut_short :
      (field : String) (ending : Option IoError) (s t : Input) {a : List ℕ}
      → lift (cut_short path field ending) s ≢ ok (a, t)
  lift-cut_short field none s t h = cc h
  lift-cut_short field (some e) s t h = cc h

  -- Where so many bytes are read, they are the first of the input.
  read_exact-ok :
      (count : ℕ) (field : String) (s t : Input) {a : List ℕ}
      → read_exact path count field s ≡ ok (a, t)
      → (count ≤ length s.bytes)
        × (a ≡ take count s.bytes)
        × (t ≡ record s { bytes = drop count s.bytes })
  unfolding read_exact
  read_exact-ok count field s t h = elim (Bool-cases (leb count (length s.bytes))) [
    | inl enough ↦ ground arith
    | inr short ↦ absurd (lift-cut_short field s.ending s t (rw short at h))
  ]

  pub read_exact_enough :
      (count : ℕ) (field : String) (s : Input)
      → count ≤ length s.bytes
      → read_exact path count field s
        ≡ ok (take count s.bytes, record s { bytes = drop count s.bytes })
  unfolding read_exact
  read_exact_enough count field s h = ground (arith, h)

  read_exact-real :
      (count : ℕ) (field : String) (s : Input) → read_exact path count field s ≢ err exhausted
  unfolding read_exact
  read_exact-real count field s h = elim (Bool-cases (leb count (length s.bytes))) [
    | inl enough ↦ ground arith
    | inr short ↦
        (lift-IsDecoder {A = List ℕ} (cut_short path field s.ending)).real s (rw short at h)
  ]

  read_exact-extends :
      (count : ℕ) (field : String) (s t : Input) (a more : List ℕ) (ending : Option IoError)
      → read_exact path count field s ≡ ok (a, t)
      → read_exact path count field (followed s more ending) ≡ ok (a, followed t more ending)
  read_exact-extends count field s t a more ending h =
      let (enough, same, left) = read_exact-ok count field s t h in
      read_exact_enough count field (followed s more ending)
        (omega (arith, enough, length-append s.bytes more))
      ∙ cc (
        same,
        take-append count s.bytes more enough,
        drop-append count s.bytes more enough,
        ap (λ (u : Input). u.bytes) left,
      )

  pub read_exact-IsDecoder : (count : ℕ) (field : String) → IsDecoder (read_exact path count field)
  read_exact-IsDecoder count field = record {
    real = read_exact-real count field;
    shrinks = λ s t a h.
        let (enough, _, e) = read_exact-ok count field s t h in
        omega (arith, ap (λ (u : Input). length u.bytes) e, length-drop count s.bytes);
    extends = λ s t a more ending h. read_exact-extends count field s t a more ending h;
  }

  pub read_u32-IsDecoder : (field : String) → IsDecoder (read_u32 path field)
  unfolding read_u32
  read_u32-IsDecoder field = bind (read_exact-IsDecoder 4 field) (λ bytes. pure-IsDecoder _)

  -- A number is at least a byte.
  pub read_u32-less :
      (field : String) (s t : Input) {n : ℕ}
      → read_u32 path field s ≡ ok (n, t)
      → length t.bytes < length s.bytes
  unfolding read_u32
  read_u32-less field s t h =
      let (bytes, u, first, second) =
        continue-ok (read_exact path 4 field s) (λ bytes. pure (from_le_bytes bytes)) h in
      let (enough, _, e) = read_exact-ok 4 field s u first in
      omega (
        arith,
        enough,
        ap (λ (v : Input). length v.bytes) e,
        length-drop 4 s.bytes,
        ap (λ (v : Input). length v.bytes) (same_rest second),
      )

  pub read_u64-IsDecoder : (field : String) → IsDecoder (read_u64 path field)
  unfolding read_u64
  read_u64-IsDecoder field = bind (read_exact-IsDecoder 8 field) (λ bytes. pure-IsDecoder _)

  pub read_bool-IsDecoder : (field : String) → IsDecoder (read_bool path field)
  unfolding read_bool
  read_bool-IsDecoder field =
      bind (read_u32-IsDecoder field) (λ code. lift-IsDecoder (bool_of path field code))

  pub read_string-IsDecoder : (field : String) → IsDecoder (read_string path field)
  unfolding read_string
  read_string-IsDecoder field = bind (read_u32-IsDecoder field) λ count.
      bind (read_exact-IsDecoder count field) λ bytes. lift-IsDecoder (string_of path field bytes)
