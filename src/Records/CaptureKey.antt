-- ===== src/Records/CaptureKey.antt =====
-- crates/cargo-optic-records/src/capture_key.rs
pub mod Laws
use optic.Prelude.{
  ℕ, Bool, ◌||◌, not, ok, err, all, length, ◌==◌, within, if◌then◌else◌, Eq, key_eq,
}
use optic.Prelude.Text.{Text, text_eq, is_ascii_digit}
use optic.Records.Error.{Checked, invalid_field, value}

pub record CaptureKey : Type 0 where
  pub text : Text

-- Two keys are equal when their texts are.
instance abbrev pub capture_key_eq : Eq CaptureKey
capture_key_eq = key_eq (λ (c : CaptureKey). c.text) (λ a b p i. record { text = p i }) text_eq

-- The bytes of lowercase hexadecimal text.
unfoldable pub is_lower_hex : ℕ → Bool
unfolding is_ascii_digit
is_lower_hex byte = is_ascii_digit byte || within b'a' b'f' byte

unfoldable pub parse : Text → Checked CaptureKey
unfolding is_lower_hex
parse text =
    if not (length text == 64) || not (all is_lower_hex text)
    then err (invalid_field "capture key (64 lowercase hexadecimal characters)" (value text))
    else ok (record { text = text })
