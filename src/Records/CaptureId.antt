-- ===== src/Records/CaptureId.antt =====
-- crates/cargo-optic-records/src/capture_id.rs
pub mod Laws
use optic.Prelude.{ℕ, ◌&&◌, not, List, ok, err, length, ◌==◌, if◌then◌else◌, Eq, key_eq}
use optic.Prelude.Text.{Text, text_eq}
use optic.Records.Error.{Checked, invalid_capture_id}
use optic.Records.ReverseHex.{encode, is_canonical}

pub record CaptureId : Type 0 where
  pub text : Text

-- Two identifiers are equal when their texts are.
instance abbrev pub capture_id_eq : Eq CaptureId
capture_id_eq = key_eq (λ (c : CaptureId). c.text) (λ a b p i. record { text = p i }) text_eq

abbrev pub text_length : ℕ
text_length = 32

-- The 16 bytes of a new version 4 UUID come from the crate `uuid`.
unfoldable pub generate : List ℕ → CaptureId
generate uuid = record { text = encode uuid }

unfoldable pub parse : Text → Checked CaptureId
unfolding is_canonical
parse value =
    if not (length value == text_length && is_canonical value)
    then err (invalid_capture_id value)
    else ok (record { text = value })
