-- ===== src/Records/AnalysisToken/Laws.antt =====
-- Which texts are analysis tokens.
use optic.Prelude.{
  ℕ, zero, suc, ◌+◌, Bool, true, [], ◌∷◌, ◌++◌, ◌≡◌, ◌↔◌, ◌≤◌, ◌⊎◌, All, refl, sym, ap, subst, ◌∙◌,
  arith, ok, all, length, length-append,
}
use optic.Prelude.Text.{Text, is_ascii_digit}
use optic.Records.AnalysisToken.{AnalysisToken, is_version, is_variant, byte_at, parse}
use optic.Records.CaptureKey.{is_lower_hex}

-- A lowercase hexadecimal digit.
abbrev pub IsHexDigit : ℕ → Type 0
IsHexDigit c = ((b'0' ≤ c) × (c ≤ b'9')) ⊎ ((b'a' ≤ c) × (c ≤ b'f'))

is_lower_hex_iff : (c : ℕ) → (is_lower_hex c ≡ true) ↔ IsHexDigit c
unfolding is_lower_hex is_ascii_digit
is_lower_hex_iff c = ground arith

all_hex_iff : (t : Text) → (all is_lower_hex t ≡ true) ↔ All IsHexDigit t
all_hex_iff [] = (λ _. tt, λ _. refl)
all_hex_iff (c ∷ t) = ground (arith, is_lower_hex_iff c, all_hex_iff t)

-- The digits of the variant that RFC 4122 defines: their upper two bits are 1 and 0.
abbrev pub IsRfcVariant : ℕ → Type 0
IsRfcVariant c = (c ≡ b'8') ⊎ (c ≡ b'9') ⊎ (c ≡ b'a') ⊎ (c ≡ b'b')

is_variant_iff : (c : ℕ) → (is_variant c ≡ true) ↔ IsRfcVariant c
is_variant_iff c = ground arith

is_version_iff : (c : ℕ) → (is_version c ≡ true) ↔ (c ≡ b'4')
is_version_iff c = ground arith

-- The fields of a UUID in its simple form: 32 lowercase hexadecimal digits, the thirteenth of which
-- is the version 4, and the seventeenth the variant.
pub record IsUuid (t : Text) : Type 0 where
  pub time : Text
  pub version : ℕ
  pub time_high : Text
  pub variant : ℕ
  pub node : Text
  pub time_length : length time ≡ 12
  pub time_high_length : length time_high ≡ 3
  pub node_length : length node ≡ 15
  pub splits : t ≡ time ++ (version ∷ (time_high ++ (variant ∷ node)))
  pub digits : All IsHexDigit t
  pub is_version_4 : version ≡ b'4'
  pub is_rfc_variant : IsRfcVariant variant

record SplitAt (t : Text) (i : ℕ) (test : ℕ → Bool) : Type 0 where
  before : Text
  byte : ℕ
  after : Text
  splits : t ≡ before ++ byte ∷ after
  at_index : length before ≡ i
  passes : test byte ≡ true

byte_at-SplitAt : (t : Text) (i : ℕ) (test : ℕ → Bool) → byte_at t i test ≡ true → SplitAt t i test
byte_at-SplitAt [] i test h = absurd (cc h)
byte_at-SplitAt (c ∷ t) zero test h = record {
  before = [];
  byte = c;
  after = t;
  splits = refl;
  at_index = refl;
  passes = h;
}
byte_at-SplitAt (c ∷ t) (suc i) test h =
    let s = byte_at-SplitAt t i test h in
    record {
      before = c ∷ s.before;
      byte = s.byte;
      after = s.after;
      splits = ap (◌∷◌ c) s.splits;
      at_index = ap suc s.at_index;
      passes = s.passes;
    }

byte_at-append :
    (a s : Text) (i j : ℕ) (test : ℕ → Bool)
    → i ≡ length a + j
    → byte_at (a ++ s) i test ≡ byte_at s j test
byte_at-append [] s i j test e = ap (λ k. byte_at s k test) (omega arith)
byte_at-append (c ∷ a) s zero j test e = absurd (omega arith)
byte_at-append (c ∷ a) s (suc i) j test e = byte_at-append a s i j test (omega arith)

-- The variant stands three bytes behind the version.
variant-SplitAt :
    (t : Text) (v : SplitAt t 12 is_version)
    → byte_at t 16 is_variant ≡ true
    → SplitAt v.after 3 is_variant
variant-SplitAt t v h = byte_at-SplitAt v.after 3 is_variant (
    sym (byte_at-append v.before (v.byte ∷ v.after) 16 4 is_variant (omega (arith, v.at_index)))
    ∙ subst (λ u. byte_at u 16 is_variant ≡ true) v.splits h)

IsUuid-of_bytes :
    (t : Text)
    → length t ≡ 32
    → all is_lower_hex t ≡ true
    → SplitAt t 12 is_version
    → byte_at t 16 is_variant ≡ true
    → IsUuid t
IsUuid-of_bytes t len hex v h =
    let w = variant-SplitAt t v h in
    record {
      time = v.before;
      version = v.byte;
      time_high = w.before;
      variant = w.byte;
      node = w.after;
      time_length = v.at_index;
      time_high_length = w.at_index;
      node_length = omega (
        arith,
        len,
        v.at_index,
        w.at_index,
        ap (length {A = ℕ}) v.splits,
        ap (length {A = ℕ}) w.splits,
        length-append v.before (v.byte ∷ v.after),
        length-append w.before (w.byte ∷ w.after),
      );
      splits = v.splits ∙ ap (λ u. v.before ++ v.byte ∷ u) w.splits;
      digits = (all_hex_iff t).0 hex;
      is_version_4 = (is_version_iff v.byte).0 v.passes;
      is_rfc_variant = (is_variant_iff w.byte).0 w.passes;
    }

IsUuid-length : (t : Text) → IsUuid t → length t ≡ 32
IsUuid-length t u = omega (
  arith,
  u.time_length,
  u.time_high_length,
  u.node_length,
  ap (length {A = ℕ}) u.splits,
  length-append u.time (u.version ∷ (u.time_high ++ (u.variant ∷ u.node))),
  length-append u.time_high (u.variant ∷ u.node),
)

IsUuid-byte_at :
    (t : Text) → IsUuid t → (byte_at t 12 is_version ≡ true) × (byte_at t 16 is_variant ≡ true)
IsUuid-byte_at t u =
    let tail = u.time_high ++ (u.variant ∷ u.node) in
    subst (λ s. (byte_at s 12 is_version ≡ true) × (byte_at s 16 is_variant ≡ true)) (sym u.splits)
      (
        byte_at-append u.time (u.version ∷ tail) 12 0 is_version (omega (arith, u.time_length))
            ∙ (is_version_iff u.version).1 u.is_version_4,
        byte_at-append u.time (u.version ∷ tail) 16 4 is_variant (omega (arith, u.time_length))
            ∙ byte_at-append u.time_high (u.variant ∷ u.node) 3 0 is_variant
                (omega (arith, u.time_high_length))
            ∙ (is_variant_iff u.variant).1 u.is_rfc_variant,
      )

-- A text parses exactly if it has 32 lowercase hexadecimal digits, of which the thirteenth is the
-- version 4 and the seventeenth one of the variant digits 8, 9, a and b; and it parses to itself.
pub parse_token_iff : (t : Text) (k : AnalysisToken) → (parse t ≡ ok k) ↔ ((k.text ≡ t) × IsUuid t)
unfolding parse
parse_token_iff t k = (
  λ h. (
    ground arith,
    IsUuid-of_bytes t (ground arith) (ground arith) (byte_at-SplitAt t 12 is_version (ground arith))
        (ground arith),
  ),
  λ (same, u). ground (arith, IsUuid-length t u, IsUuid-byte_at t u, (all_hex_iff t).1 u.digits),
)
