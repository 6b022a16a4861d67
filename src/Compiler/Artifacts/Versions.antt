-- ===== src/Compiler/Artifacts/Versions.antt =====
-- crates/cargo-optic-compiler/src/artifacts.rs: the LLVM versions that rustc and llvm-dis report.
-- White space is that of ASCII.
use optic.Prelude.{
  ℕ, Bool, false, ◌&&◌, ◌||◌, Option, none, some, List, [], ◌∷◌, leb, ◌==◌, if◌then◌else◌,
}
use optic.Prelude.Text.{Text, codes, starts_with, split_once}

-- A carriage return before a line feed is part of the line's end.
abbrev before_feed : Text → Bool
before_feed [] = false
before_feed (c ∷ text) = c == 10

abbrev unreturned : Text → Text
unreturned [] = []
unreturned (c ∷ text) = if c == 13 && before_feed text then unreturned text else c ∷ unreturned text

abbrev onto_first : ℕ → List Text → List Text
onto_first c [] = (c ∷ []) ∷ []
onto_first c (line ∷ lines_) = (c ∷ line) ∷ lines_

abbrev feed_lines : Text → List Text
feed_lines [] = []
feed_lines (c ∷ text) =
    let rest = feed_lines text in if c == 10 then [] ∷ rest else onto_first c rest

-- `str::lines`
unfoldable pub lines : Text → List Text
lines text = feed_lines (unreturned text)

abbrev is_space : ℕ → Bool
is_space c = c == 32 || (leb 9 c && leb c 13)

abbrev trim_start : Text → Text
trim_start [] = []
trim_start (c ∷ text) = if is_space c then trim_start text else c ∷ text

abbrev trim_end : Text → Text
trim_end [] = []
trim_end (c ∷ text) =
    let rest = trim_end text in
    elim rest as (λ _. Text) [ [] ↦ (if is_space c then [] else c ∷ []) | d ∷ more ↦ c ∷ d ∷ more ]

unfoldable pub trim : Text → Text
trim text = trim_end (trim_start text)

abbrev behind : Text → Text → Text
behind [] text = text
behind (p ∷ prefix) [] = []
behind (p ∷ prefix) (c ∷ text) = behind prefix text

unfoldable pub strip_prefix : Text → Text → Option Text
unfolding starts_with
strip_prefix prefix text = if starts_with prefix text then some (behind prefix text) else none

-- `find_map` of stripping a prefix.
unfoldable first_stripped : (Text → Text) → Text → List Text → Option Text
unfolding strip_prefix
first_stripped prepare prefix [] = none
first_stripped prepare prefix (line ∷ rest) =
    let later = first_stripped prepare prefix rest in
    elim (strip_prefix prefix (prepare line)) as (λ _. Option Text) [
      | none ↦ later
      | some version ↦ some version
    ]

-- What `rustc -vV` says.
unfoldable pub compiler_version : Text → Option Text
unfolding lines first_stripped
compiler_version text = first_stripped (λ line. line) (codes "LLVM version: ") (lines text)

abbrev before_dash : Text → Text
unfolding split_once
before_dash version = elim (split_once 45 version) as (λ _. Text) [
  | none ↦ version
  | some (numeric, _) ↦ numeric
]

unfoldable pub disassembler_version : Text → Option Text
unfolding lines trim split_once first_stripped
disassembler_version text =
    elim (first_stripped trim (codes "LLVM version ") (lines text)) as (λ _. Option Text) [
      | none ↦ none
      | some version ↦ some (before_dash version)
    ]
