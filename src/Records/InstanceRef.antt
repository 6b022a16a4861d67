-- ===== src/Records/InstanceRef.antt =====
-- crates/cargo-optic-records/src/instance_ref.rs
pub mod RoundTrip
use optic.Prelude.{
  ℕ, Bool, true, false, ◌&&◌, ◌||◌, not, Option, none, some, List, [], ◌∷◌, ◌++◌, ok, err, ◌>>=◌,
  ok_or, all, length, ltb, is_empty, ◌==◌, if◌then◌else◌,
}
use optic.Prelude.Text.{Text, is_ascii_digit, split_once, starts_with}
use optic.Records.CaptureId
use optic.Records.CaptureId.{CaptureId}
use optic.Records.Decimal
use optic.Records.Error.{Error, Checked, invalid_field, value}

pub record InstanceRef : Type 0 where
  pub capture_id : CaptureId
  pub ordinal : ℕ

abbrev pub new : CaptureId → ℕ → InstanceRef
new capture_id ordinal = record { capture_id = capture_id; ordinal = ordinal }

abbrev pub separator : ℕ
separator = b':'

unfoldable pub display : InstanceRef → Text
display r = r.capture_id.text ++ separator ∷ Decimal.display r.ordinal

abbrev pub invalid : Text → Error
invalid text = invalid_field "instance reference" (value text)

-- The tests on the text of the ordinal.
unfoldable pub is_malformed : Text → Bool
unfolding is_ascii_digit starts_with
is_malformed ordinal =
    is_empty ordinal
    || not (all is_ascii_digit ordinal)
    || (ltb 1 (length ordinal) && starts_with (b'0' ∷ []) ordinal)

unfoldable pub parse : Text → Checked InstanceRef
unfolding is_malformed
parse text = do
  (capture, ordinal) ← ok_or (split_once separator text) (invalid text)
  if is_malformed ordinal then err (invalid text) else do
    capture_id ← CaptureId.parse capture
    n ← ok_or (Decimal.parse ordinal) (invalid text)
    ok (new capture_id n)
