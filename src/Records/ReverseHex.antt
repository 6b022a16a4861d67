-- ===== src/Records/ReverseHex.antt =====
-- crates/cargo-optic-records/src/reverse_hex.rs
pub mod Bijection
use optic.Prelude.{
  ℕ, zero, suc, ◌/◌, ◌%◌, Bool, ◌&&◌, List, [], ◌∷◌, all, length, ◌==◌, within, get_or,
}
use optic.Prelude.Text.{Text, codes}

abbrev pub digits : Text
digits = codes "zyxwvutsrqponmlk"

-- `DIGITS[i]`; every index that `encode` uses is below 16.
abbrev pub digit : ℕ → ℕ
digit i = get_or digits i 0

unfoldable pub encode : List ℕ → Text
encode [] = []
encode (byte ∷ bytes) = digit (byte / 16) ∷ digit (byte % 16) ∷ encode bytes

unfoldable pub is_canonical : Text → Bool
is_canonical value = length value % 2 == 0 && all (within b'k' b'z') value
