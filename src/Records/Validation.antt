-- ===== src/Records/Validation.antt =====
-- crates/cargo-optic-records/src/validation.rs, over a model of Unix `Path::components` and of
-- collecting components into a `PathBuf`. A path is its bytes.
pub mod Normalized
use optic.Prelude.{
  ℕ, String, Bool, true, false, not, ◌&&◌, ◌||◌, List, [], ◌∷◌, ◌++◌, Result, ok, err, ◌>>=◌, ◌>>◌,
  ensure, is_empty, ◌==◌, if◌then◌else◌,
}
use optic.Prelude.Text.{Text, text_beq}
use optic.Records.Error.{
  Error, invalid_field, Checked, empty_string, empty_path, relative_path, unnormalized_path,
}

abbrev pub FilePath : Type 0
FilePath = Text

abbrev pub slash : ℕ
slash = b'/'

abbrev pub require_text : String → Text → Checked (Unit {0})
require_text field value = ensure (not (is_empty value)) (invalid_field field empty_string)

abbrev pub require_path : String → FilePath → Checked (Unit {0})
require_path field value = ensure (not (is_empty value)) (invalid_field field empty_path)

-- `Path::is_absolute` on Unix.
abbrev pub is_absolute : FilePath → Bool
is_absolute [] = false
is_absolute (c ∷ cs) = c == slash

pub data Component : Type 0 where
  root_dir cur_dir parent_dir : Component
  normal : Text → Component

-- The byte goes to the first piece.
abbrev pub extend_first : ℕ → List Text → List Text
extend_first c [] = (c ∷ []) ∷ []
extend_first c (p ∷ ps) = (c ∷ p) ∷ ps

-- The pieces between separators, empty ones included.
unfoldable pub pieces : Text → List Text
pieces [] = [] ∷ []
pieces (c ∷ cs) = let rest = pieces cs in if c == slash then [] ∷ rest else extend_first c rest

-- Empty pieces and `.` are no components.
abbrev pub body : List Text → List Component
body [] = []
body (p ∷ ps) =
    if is_empty p || text_beq p (b'.' ∷ [])
    then body ps
    else (if text_beq p (b'.' ∷ b'.' ∷ []) then parent_dir else normal p) ∷ body ps

-- A leading `.` of a relative path is kept.
abbrev leading_dot : List Text → List Component
leading_dot [] = []
leading_dot (p ∷ ps) = if text_beq p (b'.' ∷ []) then cur_dir ∷ body ps else body (p ∷ ps)

unfoldable pub components : FilePath → List Component
unfolding pieces text_beq
components [] = []
components (c ∷ cs) =
    if c == slash then root_dir ∷ body (pieces cs) else leading_dot (pieces (c ∷ cs))

-- Does a separator go before the next component?
abbrev needs_separator : FilePath → Bool
needs_separator [] = false
needs_separator (c ∷ []) = not (c == slash)
needs_separator (c ∷ d ∷ cs) = needs_separator (d ∷ cs)

abbrev spelled : Component → Text
spelled root_dir = slash ∷ []
spelled cur_dir = b'.' ∷ []
spelled parent_dir = b'.' ∷ b'.' ∷ []
spelled (normal t) = t

-- `PathBuf::push` of one component: the root replaces the path.
abbrev push : FilePath → Component → FilePath
push path root_dir = slash ∷ []
push path c = if needs_separator path then path ++ (slash ∷ spelled c) else path ++ spelled c

abbrev pub collect : FilePath → List Component → FilePath
collect path [] = path
collect path (c ∷ cs) = collect (push path c) cs

abbrev pub has_parent : List Component → Bool
has_parent [] = false
has_parent (parent_dir ∷ cs) = true
has_parent (_ ∷ cs) = has_parent cs

unfoldable pub require_absolute_normalized_path : String → FilePath → Checked (Unit {0})
unfolding components text_beq
require_absolute_normalized_path field value = do
  require_path field value
  ensure (is_absolute value) (invalid_field field (relative_path value))
  let normalized = collect [] (components value)
  ensure (not (has_parent (components value) || not (text_beq normalized value)))
      (invalid_field field (unnormalized_path value))
