-- ===== src/Records/AnalysisToken.antt =====
-- crates/cargo-optic-records/src/analysis_token.rs
pub mod Laws
use optic.Prelude.{
  ℕ, Bool, false, ◌&&◌, ◌||◌, not, Option, none, some, ok, err, all, length, get_elem?, ◌==◌,
  if◌then◌else◌, Eq, key_eq,
}
use optic.Prelude.Text.{Text, text_eq}
use optic.Records.CaptureKey.{is_lower_hex}
use optic.Records.Error.{Checked, invalid_field, value}

pub record AnalysisToken : Type 0 where
  pub text : Text

-- Two tokens are equal when their texts are.
instance abbrev pub analysis_token_eq : Eq AnalysisToken
analysis_token_eq =
    key_eq (λ (t : AnalysisToken). t.text) (λ a b p i. record { text = p i }) text_eq

-- A test of the byte at an index, which the length test before it has put in range.
abbrev pub byte_at : Text → ℕ → (ℕ → Bool) → Bool
byte_at text i test = elim (get_elem? text i) [ none ↦ false | some byte ↦ test byte ]

abbrev pub is_version : ℕ → Bool
is_version byte = byte == b'4'

abbrev pub is_variant : ℕ → Bool
is_variant byte = byte == b'8' || byte == b'9' || byte == b'a' || byte == b'b'

unfoldable pub parse : Text → Checked AnalysisToken
unfolding is_lower_hex
parse text =
    if not (
      length text == 32
      && all is_lower_hex text
      && byte_at text 12 is_version
      && byte_at text 16 is_variant)
    then err
        (invalid_field "analysis token (32 lowercase hexadecimal UUID-v4 characters)" (value text))
    else ok (record { text = text })
