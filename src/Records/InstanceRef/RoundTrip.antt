-- ===== src/Records/InstanceRef/RoundTrip.antt =====
-- A reference is read back from its text, and every accepted text is the text of its reference.
use optic.Prelude.{
  ℕ, ◌≤◌, true, false, [], ◌∷◌, ◌++◌, ◌≡◌, ◌≢◌, refl, sym, ap₂, ◌∙◌, arith, ok, All, all, length,
  within, some, ◌&&◌, ltb, Option-cases, inl, inr,
}
use optic.Prelude.Text.{Text, starts_with, split_once, split_once-append, split_once_sound}
use optic.Records.CaptureId
use optic.Records.CaptureId.{CaptureId}
use optic.Records.CaptureId.Laws.{IsCanonical, parse_sound, parse_complete}
use optic.Records.Decimal
use optic.Records.Decimal.{u64_max}
use optic.Records.Decimal.RoundTrip.{
  IsPlain, parse-display as read_ordinal, display-parse as write_ordinal, display-IsPlain,
  parse_bound,
}
use optic.Records.ReverseHex.{is_canonical}
use optic.Records.InstanceRef.{InstanceRef, separator, display, is_malformed, parse}

canonical-lacks-separator :
    (t : Text) → all (within b'k' b'z') t ≡ true → All (λ c. c ≢ separator) t
canonical-lacks-separator [] h = tt
canonical-lacks-separator (c ∷ t) h = ((ground arith), canonical-lacks-separator t (ground arith))

no_zero_of :
    (c : ℕ) (s : Text)
    → (ltb 1 (length (c ∷ s)) && starts_with (b'0' ∷ []) (c ∷ s)) ≡ false
    → (cs : Text) → c ∷ s ≡ b'0' ∷ cs
    → cs ≡ []
unfolding starts_with
no_zero_of c [] h cs e = cc
no_zero_of c (d ∷ s) h cs e = ground arith

IsPlain-of_not-is_malformed : (s : Text) → is_malformed s ≡ false → IsPlain s
unfolding is_malformed
IsPlain-of_not-is_malformed [] h = absurd (cc h)
IsPlain-of_not-is_malformed (c ∷ s) h = record {
  nonempty = λ e. cc e;
  digits = ground arith;
  no_zero = no_zero_of c s (ground arith);
}

not-is_malformed_of_plain : (s : Text) → IsPlain s → is_malformed s ≡ false
unfolding is_malformed
not-is_malformed_of_plain [] p = absurd (p.nonempty refl)
not-is_malformed_of_plain (c ∷ []) p = ground (arith, p.digits)
not-is_malformed_of_plain (c ∷ d ∷ s) p = ground (arith, p.digits, p.no_zero (d ∷ s))

canonical_digits : (c : CaptureId) → IsCanonical c → all (within b'k' b'z') c.text ≡ true
canonical_digits c h = unfold is_canonical in ground arith

-- The type's invariant: a canonical identifier, and an ordinal that fits `u64`.
pub record IsValid (r : InstanceRef) : Type 0 where
  pub canonical : IsCanonical r.capture_id
  pub fits : r.ordinal ≤ u64_max

-- Every valid reference is read back from its text.
pub parse-display : (r : InstanceRef) → IsValid r → parse (display r) ≡ ok r
unfolding parse display
parse-display r v = ground (
  arith,
  split_once-append separator r.capture_id.text (Decimal.display r.ordinal)
      (canonical-lacks-separator r.capture_id.text (canonical_digits r.capture_id v.canonical)),
  not-is_malformed_of_plain (Decimal.display r.ordinal) (display-IsPlain r.ordinal),
  parse_complete r.capture_id v.canonical,
  read_ordinal r.ordinal v.fits,
)

-- What each step of a successful parse has read.
record Parts (t : Text) (r : InstanceRef) : Type 0 where
  capture : Text
  ordinal : Text
  splits : split_once separator t ≡ some (capture, ordinal)
  plain : is_malformed ordinal ≡ false
  reads_capture : CaptureId.parse capture ≡ ok r.capture_id
  reads_ordinal : Decimal.parse ordinal ≡ some r.ordinal

parse-Parts : (t : Text) (r : InstanceRef) → parse t ≡ ok r → Parts t r
unfolding parse
parse-Parts t r h = elim (Option-cases (split_once separator t)) [
  | inl missing ↦ absurd (cc (rw missing at h))
  | inr ((a, b), found) ↦ record {
    capture = a;
    ordinal = b;
    splits = found;
    plain = ground arith;
    reads_capture = ground arith;
    reads_ordinal = ground arith;
  }
]

-- An accepted text is the canonical text of the reference that it parses to.
pub display-parse : (t : Text) (r : InstanceRef) → parse t ≡ ok r → (display r ≡ t) × IsValid r
unfolding display
display-parse t r h =
    let p = parse-Parts t r h in
    let (same, canonical) = parse_sound p.capture r.capture_id p.reads_capture in
    (
      ap₂ (λ a b. a ++ separator ∷ b) same
            (write_ordinal p.ordinal r.ordinal (IsPlain-of_not-is_malformed p.ordinal p.plain)
              p.reads_ordinal)
          ∙ sym (split_once_sound separator t p.splits),
      record { canonical = canonical; fits = parse_bound p.ordinal p.reads_ordinal },
    )
