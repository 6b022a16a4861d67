-- ===== src/Prelude/Text.antt =====
-- Texts as lists of bytes (Rust's `str` is its UTF-8 bytes): equality, the lexicographic order of
-- `str::cmp`, prefixes, `contains` and `split_once`.
use Prim.Native.Char.{code}
use optic.Prelude.Tests.{◌==◌, if◌then◌else◌, within, Bool-cases}
use optic.Prelude.Lists.{All}
use optic.Prelude.Equality.{Eq, nat_eq, list_beq, list_beq_iff}
use Prim.Native.Nat.{ℕ}
use Prim.Native.String.{String}
use mathlib.Core.Path.{◌≡◌, refl, ap, sym, subst}
use mathlib.Core.Logic.{◌≢◌, ◌↔◌, inl, inr}
use mathlib.Core.Bool.{Bool, true, false, ◌&&◌, ◌||◌}
use mathlib.Core.Option.{Option, none, some}
use mathlib.Core.List.{List, [], ◌∷◌, ◌++◌}
use native.Mathlib.Omega.{arith}

abbrev pub Text : Type 0
Text = List ℕ

-- The bytes of an ASCII literal.
abbrev pub codes : String → Text
codes String.[] = []
codes (String.◌∷◌ c s) = code c ∷ codes s

-- `==` on `str`, on `OsStr` and on byte slices.
unfoldable pub text_beq : Text → Text → Bool
unfolding list_beq
text_beq = list_beq

pub text_beq_iff : (a b : Text) → (text_beq a b ≡ true) ↔ (a ≡ b)
unfolding text_beq
text_beq_iff = list_beq_iff

instance abbrev pub text_eq : Eq Text
text_eq = record { beq = text_beq; beq_iff = text_beq_iff }

-- `u8::is_ascii_digit`
unfoldable pub is_ascii_digit : ℕ → Bool
is_ascii_digit c = within b'0' b'9' c

-- `str::starts_with`
unfoldable pub starts_with : Text → Text → Bool
starts_with [] ys = true
starts_with (x ∷ xs) [] = false
starts_with (x ∷ xs) (y ∷ ys) = x == y && starts_with xs ys

-- `haystack.contains(needle)`: the needle is a prefix of some suffix.
unfoldable pub includes : Text → Text → Bool
unfolding starts_with
includes [] needle = starts_with needle []
includes (c ∷ cs) needle = starts_with needle (c ∷ cs) || includes cs needle

-- `str::split_once` at a byte.
unfoldable pub split_once : ℕ → Text → Option (Text × Text)
split_once sep [] = none
split_once sep (c ∷ cs) =
    if c == sep
    then some ([], cs)
    else elim (split_once sep cs) [ none ↦ none | some (a, b) ↦ some (c ∷ a, b) ]

pub split_once-append :
    (sep : ℕ) (a b : Text) → All (λ c. c ≢ sep) a → split_once sep (a ++ sep ∷ b) ≡ some (a, b)
unfolding split_once
split_once-append sep [] b h = ground arith
split_once-append sep (c ∷ a) b (h, t) = ground (arith, split_once-append sep a b t)

pub split_once_sound :
    (sep : ℕ) (s : Text) {a b : Text} → split_once sep s ≡ some (a, b) → s ≡ a ++ sep ∷ b
unfolding split_once
split_once_sound sep [] h = cc
split_once_sound sep (c ∷ cs) {a = []} {b} h = ground arith
split_once_sound sep (c ∷ cs) {a = d ∷ a} {b} h =
    ground (arith, split_once_sound sep cs {a = a} {b = b})

pub starts_with-append : (p rest : Text) → starts_with p (p ++ rest) ≡ true
unfolding starts_with
starts_with-append [] rest = refl
starts_with-append (x ∷ p) rest = ground (arith, starts_with-append p rest)

pub starts_with_sound : (p s : Text) → starts_with p s ≡ true → (rest : Text) × (s ≡ p ++ rest)
unfolding starts_with
starts_with_sound [] s h = (s, refl)
starts_with_sound (x ∷ p) [] h = absurd (cc h)
starts_with_sound (x ∷ p) (y ∷ s) h =
    let (rest, e) = starts_with_sound p s (ground arith) in (rest, ground arith)

includes_sound :
    (s p : Text)
    → includes s p ≡ true
    → (before : Text) × (after : Text) × (s ≡ before ++ (p ++ after))
unfolding includes
includes_sound [] p h = let (rest, e) = starts_with_sound p [] h in ([], rest, e)
includes_sound (c ∷ s) p h = elim (Bool-cases (starts_with p (c ∷ s))) [
  | inl here ↦ let (rest, e) = starts_with_sound p (c ∷ s) here in ([], rest, e)
  | inr later ↦
      let (before, after, e) = includes_sound s p (ground arith) in
      (c ∷ before, after, ap (◌∷◌ c) e)
]

includes-append : (before p after : Text) → includes (before ++ (p ++ after)) p ≡ true
unfolding includes
includes-append [] [] [] = refl
includes-append [] [] (c ∷ after) = unfold starts_with in refl
includes-append [] (c ∷ p) after = rw (starts_with-append (c ∷ p) after)
includes-append (c ∷ before) p after = ground (arith, includes-append before p after)

-- `contains` finds exactly the substrings.
pub includes_iff :
    (s p : Text)
    → (includes s p ≡ true) ↔ ((before : Text) × (after : Text) × (s ≡ before ++ (p ++ after)))
includes_iff s p = (
  includes_sound s p,
  λ (before, after, e). subst (λ t. includes t p ≡ true) (sym e) (includes-append before p after),
)
