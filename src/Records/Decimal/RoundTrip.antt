-- ===== src/Records/Decimal/RoundTrip.antt =====
-- A `u64` is read back from its decimal text, and a text without leading zeros is the decimal text
-- of the number that it is read as.
use optic.Prelude.{
  ℕ, zero, suc, ◌+◌, ◌-◌, ◌*◌, ◌/◌, ◌%◌, ◌≤◌, ◌<◌, true, some, [], ◌∷◌, ◌≡◌, ◌≢◌, refl, ap, ap₂,
  inl, inr, ◌∙◌, arith, all, ltb, ltb→lt, ◌==◌, Bool-cases,
}
use optic.Prelude.Text.{Text, is_ascii_digit}
use optic.Records.Decimal.{u64_max, digits_onto, display, parse_onto, parse}

-- Any fuel above the number gives the same text.
digits_onto-fuel :
    (f g n : ℕ) (out : Text) → n < f → n < g → digits_onto f n out ≡ digits_onto g n out
unfolding digits_onto
digits_onto-fuel zero g n out h k = absurd (omega arith)
digits_onto-fuel (suc f) zero n out h k = absurd (omega arith)
digits_onto-fuel (suc f) (suc g) n out h k =
    ground (arith, digits_onto-fuel f g (n / 10) ((b'0' + n % 10) ∷ out))

-- The digits of `n` in front of `out`.
pub onto : ℕ → Text → Text
onto n out = digits_onto (suc n) n out

onto_last : (n : ℕ) (out : Text) → n < 10 → onto n out ≡ (b'0' + n) ∷ out
unfolding onto digits_onto
onto_last n out h = ground arith

step_once :
    (f n : ℕ) (out : Text)
    → 10 ≤ n
    → digits_onto (suc f) n out ≡ digits_onto f (n / 10) ((b'0' + n % 10) ∷ out)
unfolding digits_onto
step_once f n out h = ground arith

onto_step : (n : ℕ) (out : Text) → 10 ≤ n → onto n out ≡ onto (n / 10) ((b'0' + n % 10) ∷ out)
unfolding onto
onto_step n out h =
    step_once n n out h
    ∙ digits_onto-fuel n (suc (n / 10)) (n / 10) ((b'0' + n % 10) ∷ out) (omega arith) (omega arith)

digits_onto-ne-nil : (f n : ℕ) (out : Text) → n < f → digits_onto f n out ≢ []
unfolding digits_onto
digits_onto-ne-nil zero n out h = absurd (omega arith)
digits_onto-ne-nil (suc f) n out h =
    ground (arith, digits_onto-ne-nil f (n / 10) ((b'0' + n % 10) ∷ out))

-- Reading the last digit behind those before it gives the number.
parse_onto_last :
    (n : ℕ) (out : Text)
    → n ≤ u64_max
    → parse_onto (n / 10) ((b'0' + n % 10) ∷ out) ≡ parse_onto n out
unfolding parse_onto
parse_onto_last n out h = ground arith

parse_onto_first :
    (n : ℕ) (out : Text) → n < 10 → parse_onto 0 ((b'0' + n) ∷ out) ≡ parse_onto n out
unfolding parse_onto
parse_onto_first n out h = ground arith

parse_onto-digits_onto :
    (f n : ℕ) (out : Text)
    → n < f
    → n ≤ u64_max
    → parse_onto 0 (digits_onto f n out) ≡ parse_onto n out
unfolding digits_onto
parse_onto-digits_onto zero n out h k = absurd (omega arith)
parse_onto-digits_onto (suc f) n out h k = elim (Bool-cases (ltb n 10)) [
  | inl last ↦ rw last (parse_onto_first n out (ltb→lt n 10 last))
  | inr more ↦ rw more (
      parse_onto-digits_onto f (n / 10) ((b'0' + n % 10) ∷ out) (ground arith) (omega arith)
      ∙ parse_onto_last n out k)
]

parse-parse_onto : (s : Text) → s ≢ [] → parse s ≡ parse_onto 0 s
unfolding parse
parse-parse_onto [] h = absurd (h refl)
parse-parse_onto (c ∷ cs) h = refl

pub parse-display : (n : ℕ) → n ≤ u64_max → parse (display n) ≡ some n
unfolding display
parse-display n h =
    parse-parse_onto (digits_onto (suc n) n []) (digits_onto-ne-nil (suc n) n [] (omega arith))
    ∙ parse_onto-digits_onto (suc n) n [] (omega arith) h
    ∙ unfold parse_onto in refl

parse_onto_bound : (s : Text) (n : ℕ) {m : ℕ} → n ≤ u64_max → parse_onto n s ≡ some m → m ≤ u64_max
unfolding parse_onto
parse_onto_bound [] n fits h = ground arith
parse_onto_bound (c ∷ cs) n {m} fits h =
    parse_onto_bound cs (n * 10 + (c - b'0')) (ground arith) (ground arith)

pub parse_bound : (s : Text) {m : ℕ} → parse s ≡ some m → m ≤ u64_max
unfolding parse
parse_bound [] h = cc
parse_bound (c ∷ cs) h = parse_onto_bound (c ∷ cs) 0 (omega arith) h

-- No leading zero, unless the text is `0`.
pub record IsPlain (s : Text) : Type 0 where
  pub nonempty : s ≢ []
  pub digits : all is_ascii_digit s ≡ true
  pub no_zero : (cs : Text) → s ≡ b'0' ∷ cs → cs ≡ []

-- Digits read behind a positive number are the digits that its text goes on with.
onto-parse_onto : (cs : Text) (a n : ℕ) → 0 < a → parse_onto a cs ≡ some n → onto n [] ≡ onto a cs
unfolding parse_onto
onto-parse_onto [] a n pos h = ap (λ m. onto m []) (ground arith)
onto-parse_onto (c ∷ cs) a n pos h =
    onto-parse_onto cs (a * 10 + (c - b'0')) n (omega arith) (ground arith)
    ∙ onto_step (a * 10 + (c - b'0')) cs (omega arith)
    ∙ ap₂ (λ m d. onto m (d ∷ cs)) (ground arith) (ground arith)

single_zero :
    (c : ℕ) (cs : Text) (n : ℕ) → c ≡ b'0' → cs ≡ [] → parse (c ∷ cs) ≡ some n → display n ≡ c ∷ cs
unfolding display parse digits_onto
single_zero c [] n z e h = ground arith
single_zero c (d ∷ cs) n z e h = cc

pub display-parse : (s : Text) (n : ℕ) → IsPlain s → parse s ≡ some n → display n ≡ s
unfolding display parse onto
display-parse [] n p h = absurd (p.nonempty refl)
display-parse (c ∷ cs) n p h = elim (Bool-cases (c == b'0')) [
  | inl leading ↦
      single_zero c cs n (ground arith) (p.no_zero cs (ap (λ d. d ∷ cs) (ground arith))) h
  | inr other ↦
      onto-parse_onto cs (c - b'0') n (ground arith) (ground arith)
      ∙ onto_last (c - b'0') cs (ground arith)
      ∙ ap (λ d. d ∷ cs) (ground arith)
]

all-digits_onto :
    (f n : ℕ) (out : Text)
    → all is_ascii_digit out ≡ true
    → all is_ascii_digit (digits_onto f n out) ≡ true
unfolding digits_onto is_ascii_digit
all-digits_onto zero n out h = h
all-digits_onto (suc f) n out h = ground (arith, all-digits_onto f (n / 10) ((b'0' + n % 10) ∷ out))

digits_onto_head : (f n : ℕ) (out cs : Text) → n < f → 0 < n → digits_onto f n out ≢ b'0' ∷ cs
unfolding digits_onto
digits_onto_head zero n out cs h pos = absurd (omega arith)
digits_onto_head (suc f) n out cs h pos =
    ground (arith, digits_onto_head f (n / 10) ((b'0' + n % 10) ∷ out) cs)

display_zero : (n : ℕ) (cs : Text) → display n ≡ b'0' ∷ cs → cs ≡ []
unfolding display
display_zero zero cs h = ground arith
display_zero (suc n) cs h =
    absurd (digits_onto_head (suc (suc n)) (suc n) [] cs (omega arith) (omega arith) h)

pub display-IsPlain : (n : ℕ) → IsPlain (display n)
display-IsPlain n = record {
  nonempty = unfold display in digits_onto-ne-nil (suc n) n [] (omega arith);
  digits = unfold display in all-digits_onto (suc n) n [] refl;
  no_zero = display_zero n;
}
