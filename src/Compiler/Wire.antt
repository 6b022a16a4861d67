-- ===== src/Compiler/Wire.antt =====
-- crates/cargo-optic-compiler/src/manifest/decoder.rs: the fields of the byte stream. The state is
-- the bytes that are not read yet, and how the reader ends behind them.
pub mod Sound
use optic.Prelude.{
  ℕ, zero, suc, ◌+◌, ◌*◌, ◌/◌, ◌%◌, String, Bool, true, false, Option, none, some, List, [], ◌∷◌,
  Result, ok, err, length, take, drop, leb, ◌==◌, if◌then◌else◌,
}
use optic.Prelude.Text.{Text}
use optic.Records.Validation.{FilePath}
use optic.Store.{IoError}
use optic.LlvmIndex.Symbol.{is_utf8}
use optic.Compiler.{Error, Message, filesystem, invalid_manifest, plain, shows_number, shows_text}

pub record Input : Type 0 where
  pub bytes : List ℕ
  pub ending : Option IoError

-- `exhausted` is of the model: the loop over the records runs on fuel.
pub data Failure : Type 0 where
  failed : Error → Failure
  exhausted : Failure

abbrev pub Decode : Type 0 → Type 0
Decode A = Input → Result Failure (A × Input)

abbrev pub pure : {A : Type 0} → A → Decode A
pure a s = ok (a, s)

-- A step that reads nothing.
abbrev pub lift : {A : Type 0} → Result Error A → Decode A
lift (ok a) s = ok (a, s)
lift (err e) s = err (failed e)

abbrev pub continue :
    {A B : Type 0} → Result Failure (A × Input) → (A → Decode B) → Result Failure (B × Input)
continue (ok (a, t)) f = f a t
continue (err e) f = err e

infixl 5 ◌>>=◌ ◌>>◌
abbrev pub ◌>>=◌ : {A B : Type 0} → Decode A → (A → Decode B) → Decode B
(m >>= f) s = continue (m s) f

abbrev pub ◌>>◌ : {B : Type 0} → Decode (Unit {0}) → Decode B → Decode B
(m >> k) s = continue (m s) (λ _. k)

-- `u32::from_le_bytes`, `u64::from_le_bytes`
unfoldable pub from_le_bytes : List ℕ → ℕ
from_le_bytes [] = 0
from_le_bytes (b ∷ bs) = b + 256 * from_le_bytes bs

-- `to_le_bytes` of an integer of that many bytes.
unfoldable pub to_le_bytes : ℕ → ℕ → List ℕ
to_le_bytes zero n = []
to_le_bytes (suc width) n = n % 256 ∷ to_le_bytes width (n / 256)

module _ (path : FilePath) where
  -- `ManifestDecoder::invalid`
  abbrev pub invalid : {A : Type 0} → Message → Result Error A
  invalid message = err (invalid_manifest path message)

  -- `read_exact`: at the end of the file, or with the error that the reader ends with.
  abbrev pub cut_short : {A : Type 0} → String → Option IoError → Result Error A
  cut_short field none = invalid (plain field)
  cut_short field (some e) = err (filesystem "read compiler manifest" path e)

  unfoldable pub read_exact : ℕ → String → Decode (List ℕ)
  read_exact count field s =
      if leb count (length s.bytes)
      then ok (take count s.bytes, record s { bytes = drop count s.bytes })
      else lift (cut_short field s.ending) s

  unfoldable pub read_u32 : String → Decode ℕ
  unfolding from_le_bytes
  read_u32 field = read_exact 4 field >>= λ bytes. pure (from_le_bytes bytes)

  unfoldable pub read_u64 : String → Decode ℕ
  unfolding from_le_bytes
  read_u64 field = read_exact 8 field >>= λ bytes. pure (from_le_bytes bytes)

  abbrev pub bool_of : String → ℕ → Result Error Bool
  bool_of field code =
      if code == 0
      then ok false
      else if code == 1
      then ok true
      else invalid (shows_number field code)

  unfoldable pub read_bool : String → Decode Bool
  unfolding read_u32
  read_bool field = read_u32 field >>= λ code. lift (bool_of field code)

  -- `String::from_utf8`
  abbrev pub string_of : String → List ℕ → Result Error Text
  string_of field bytes = if is_utf8 bytes then ok bytes else invalid (shows_text field bytes)

  unfoldable pub read_string : String → Decode Text
  unfolding read_u32 read_exact
  read_string field = do
    length ← read_u32 field
    bytes ← read_exact length field
    lift (string_of field bytes)

  abbrev pub nothing_behind : List ℕ → Option IoError → Result Error (Unit {0})
  nothing_behind [] none = ok tt
  nothing_behind [] (some e) = err (filesystem "read compiler manifest" path e)
  nothing_behind (_ ∷ _) ending = invalid (plain "trailing bytes")

  unfoldable pub require_end_of_file : Decode (Unit {0})
  require_end_of_file s = lift (nothing_behind s.bytes s.ending) s
