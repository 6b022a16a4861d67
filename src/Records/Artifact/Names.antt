-- ===== src/Records/Artifact/Names.antt =====
-- The names of artifact files.
use optic.Prelude.{
  ℕ, zero, suc, ◌+◌, ◌-◌, ◌*◌, ◌/◌, ◌%◌, ◌^◌, ◌<◌, ◌≤◌, ◌≢◌, true, [], ◌∷◌, ◌++◌, ◌≡◌, refl, sym,
  ap, ◌∙◌, arith, All-append, all, length, ltb, if◌then◌else◌,
}
use native.Mathlib.Nat.{pow-suc}
use optic.Prelude.Text.{Text}
use optic.Records.Artifact.{ArtifactId, ArtifactRecord, hex_digit, hex_onto, file_name, prefix}
use optic.Records.Decimal.{u64_max}
use optic.Records.CaptureKey.{is_lower_hex}
use optic.Records.Validation.{slash}
use optic.Records.Validation.Normalized.{NoSlash}

abbrev hex_value : ℕ → ℕ
hex_value c = if ltb c b'a' then c - b'0' else c - b'a' + 10

-- The number that hexadecimal digits spell behind `n`.
abbrev read_hex : ℕ → Text → ℕ
read_hex n [] = n
read_hex n (c ∷ cs) = read_hex (n * 16 + hex_value c) cs

hex_value_digit : (d : ℕ) → d < 16 → hex_value (hex_digit d) ≡ d
hex_value_digit d h = ground arith

read_hex-hex_onto :
    (w n : ℕ) (out : Text) → n < 16 ^ w → read_hex 0 (hex_onto w n out) ≡ read_hex n out
unfolding hex_onto
read_hex-hex_onto zero n out h = ap (λ m. read_hex m out) (omega arith)
read_hex-hex_onto (suc w) n out h =
    read_hex-hex_onto w (n / 16) (hex_digit (n % 16) ∷ out) (omega (arith, pow-suc 16 w))
    ∙ ap (λ m. read_hex m out) (omega (arith, hex_value_digit (n % 16) (omega arith)))

length-hex_onto : (w n : ℕ) (out : Text) → length (hex_onto w n out) ≡ w + length out
unfolding hex_onto
length-hex_onto zero n out = omega arith
length-hex_onto (suc w) n out = omega (arith, length-hex_onto w (n / 16) (hex_digit (n % 16) ∷ out))

NoSlash-of_lower_hex : (t : Text) → all is_lower_hex t ≡ true → NoSlash t
unfolding is_lower_hex
NoSlash-of_lower_hex [] h = tt
NoSlash-of_lower_hex (c ∷ t) h = (ground arith, NoSlash-of_lower_hex t (ground arith))

all-hex_onto :
    (w n : ℕ) (out : Text)
    → all is_lower_hex out ≡ true
    → all is_lower_hex (hex_onto w n out) ≡ true
unfolding hex_onto is_lower_hex
all-hex_onto zero n out h = h
all-hex_onto (suc w) n out h = all-hex_onto w (n / 16) (hex_digit (n % 16) ∷ out) (ground arith)

read_file_name :
    (a : ArtifactRecord)
    → a.id.value ≤ u64_max
    → read_hex 0 (hex_onto 16 a.id.value []) ≡ a.id.value
read_file_name a h = read_hex-hex_onto 16 a.id.value [] (omega arith)

suffix_eq :
    (m n : ℕ)
    → prefix ++ hex_onto 16 m [] ≡ prefix ++ hex_onto 16 n []
    → hex_onto 16 m [] ≡ hex_onto 16 n []
suffix_eq m n e = cc

ArtifactId-path : (a b : ArtifactId) → a.value ≡ b.value → a ≡ b
ArtifactId-path a b p = λ i. record { value = p i }

-- A file name is 25 bytes, none of them a separator: the file stands directly in its directory.
pub file_name_shape : (a : ArtifactRecord) → (length (file_name a) ≡ 25) × NoSlash (file_name a)
unfolding file_name
file_name_shape a = (
  omega (arith, length-hex_onto 16 a.id.value []),
  All-append (λ c. c ≢ slash) prefix (hex_onto 16 a.id.value []) (omega arith)
      (NoSlash-of_lower_hex (hex_onto 16 a.id.value []) (all-hex_onto 16 a.id.value [] refl)),
)

-- Different identifiers have different file names.
pub file_name-injective :
    (a b : ArtifactRecord)
    → a.id.value ≤ u64_max
    → b.id.value ≤ u64_max
    → file_name a ≡ file_name b
    → a.id ≡ b.id
unfolding file_name
file_name-injective a b ha hb e = ArtifactId-path a.id b.id (
    sym (read_file_name a ha)
    ∙ ap (read_hex 0) (suffix_eq a.id.value b.id.value e)
    ∙ read_file_name b hb)
