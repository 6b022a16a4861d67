-- ===== src/Records/ByteRange.antt =====
-- crates/cargo-optic-records/src/byte_range.rs
use optic.Prelude.{
  ℕ, ◌+◌, ◌%◌, ◌^◌, ◌≤◌, ◌≡◌, ◌↔◌, arith, leb, Option, none, some, ok, err, if◌then◌else◌,
}
use optic.Records.Decimal.{u64_max}
use optic.Records.Error.{Checked, invalid_field, overflow_at}

pub record ByteRange : Type 0 where
  pub start : ℕ
  pub length : ℕ

-- `u64::checked_add`
abbrev pub checked_add : ℕ → ℕ → Option ℕ
checked_add a b = if leb (a + b) u64_max then some (a + b) else none

unfoldable pub new : ℕ → ℕ → Checked ByteRange
new start length = elim (checked_add start length) [
  | none ↦ err (invalid_field "byte range" (overflow_at start length))
  | some _ ↦ ok (record { start = start; length = length })
]

-- The sum in `u64`, which wraps.
unfoldable pub end : ByteRange → ℕ
end r = (r.start + r.length) % 2 ^ 64

pub record RawByteRange : Type 0 where
  pub start : ℕ
  pub length : ℕ

unfoldable pub try_from : RawByteRange → Checked ByteRange
unfolding new
try_from raw = new raw.start raw.length

-- What construction establishes.
abbrev pub IsChecked : ByteRange → Type 0
IsChecked r = r.start + r.length ≤ u64_max

pub new-ok :
    (start length : ℕ) (r : ByteRange)
    → (new start length ≡ ok r)
      ↔ ((r.start ≡ start) × (r.length ≡ length) × (start + length ≤ u64_max))
unfolding new
new-ok start length r = (λ h. ground arith, λ h. ground arith)

-- A range is built exactly if its end fits `u64`, and its end is then the sum, without wrapping.
pub end-new :
    (start length : ℕ) (r : ByteRange)
    → (new start length ≡ ok r)
      ↔ ((r.start ≡ start) × (r.length ≡ length) × (end r ≡ start + length))
unfolding end
end-new start length r =
    (λ h. ground (arith, new-ok start length r), λ h. ground (arith, new-ok start length r))

pub end-IsChecked : (r : ByteRange) → IsChecked r → end r ≡ r.start + r.length
unfolding end
end-IsChecked r h = omega arith
