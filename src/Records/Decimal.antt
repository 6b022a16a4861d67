-- ===== src/Records/Decimal.antt =====
-- The decimal text of a `u64`: `Display` and `FromStr` of the standard library, the latter on
-- texts of digits.
pub mod RoundTrip
use optic.Prelude.{
  ℕ, zero, suc, ◌+◌, ◌-◌, ◌*◌, ◌/◌, ◌%◌, ◌^◌, Option, none, some, List, [], ◌∷◌, not, ltb,
  if◌then◌else◌,
}
use optic.Prelude.Text.{Text, is_ascii_digit}

abbrev pub u64_max : ℕ
u64_max = 2 ^ 64 - 1

-- Each round puts the last digit in front of those already there.
pub digits_onto : ℕ → ℕ → Text → Text
digits_onto zero n out = out
digits_onto (suc fuel) n out =
    let rest = digits_onto fuel (n / 10) ((b'0' + n % 10) ∷ out) in
    if ltb n 10 then (b'0' + n) ∷ out else rest

-- A number has no more digits than its value, plus one.
unfoldable pub display : ℕ → Text
unfolding digits_onto
display n = digits_onto (suc n) n []

-- `checked_mul(10)` and `checked_add(digit)` for each digit.
unfoldable pub parse_onto : ℕ → Text → Option ℕ
unfolding is_ascii_digit
parse_onto n [] = some n
parse_onto n (c ∷ cs) =
    if not (is_ascii_digit c)
    then none
    else if ltb u64_max (n * 10 + (c - b'0'))
    then none
    else parse_onto (n * 10 + (c - b'0')) cs

unfoldable pub parse : Text → Option ℕ
unfolding parse_onto
parse [] = none
parse (c ∷ cs) = parse_onto 0 (c ∷ cs)
