-- ===== src/LlvmIndex/Stream.antt =====
-- crates/cargo-optic-compiler/src/llvm_index/stream.rs: the input, its budget, and loops over it.
-- The state is the bytes that are not consumed yet, and how the reader ends behind them: at the end
-- of the file, or with an error. Chunks are the concern of the module Chunks.
use optic.Prelude.{
  ℕ, zero, suc, ◌+◌, ◌-◌, ◌*◌, String, Bool, false, ◌||◌, Option, none, some, List, [], ◌∷◌, Result,
  ok, err, length, drop, leb, ◌==◌, within, if◌then◌else◌,
}
use optic.Prelude.Text.{Text, is_ascii_digit}
use optic.Records.Decimal.{u64_max}
use optic.Records.Error.{Error as RecordError}

-- Malformed input at an offset, with the message or what it names; a failure of the reader; a
-- failed assertion. `out_of_fuel` is of the model: no loop returns it.
pub data Error : Type 0 where
  invalid : ℕ → String → Error
  expected_token : ℕ → Text → Error
  invalid_record : ℕ → RecordError → Error
  read_failed : Text → Error
  assertion : String → Error
  out_of_fuel : Error

pub record Stream : Type 0 where
  pub rest : List ℕ
  pub ending : Option Text
  pub offset : ℕ
  pub header_start : Option ℕ

-- An operation on the stream that may fail.
abbrev pub Read {ℓ} : Type ℓ → Type ℓ
Read A = Stream → Result Error (A × Stream)

abbrev pub pure {ℓ} : {A : Type ℓ} → A → Read A
pure a s = ok (a, s)

abbrev pub fail {ℓ} : {A : Type ℓ} → Error → Read A
fail e s = err e

abbrev pub continue {ℓ κ} :
    {A : Type ℓ} {B : Type κ} → Result Error (A × Stream) → (A → Read B) → Result Error (B × Stream)
continue (ok (a, t)) f = f a t
continue (err e) f = err e

module _ {ℓ κ} {A : Type ℓ} {B : Type κ} where
  infixl 5 ◌>>=◌ ◌>>◌
  abbrev pub ◌>>=◌ : Read A → (A → Read B) → Read B
  (m >>= f) s = continue (m s) f

  abbrev pub ◌>>◌ : Read A → Read B → Read B
  (m >> k) s = continue (m s) (λ _. k)

-- What a round of a loop decides.
pub data Round (S B : Type 0) : Type 0 where
  again : S → Round S B
  done : B → Round S B

module _ {S B : Type 0} (body : S → Read (Round S B)) where
  unfoldable pub rounds : ℕ → S → Read B
  rounds zero a s = err out_of_fuel
  rounds (suc fuel) a s =
      continue (body a s) (λ r. elim r [ again a' ↦ λ t. rounds fuel a' t | done b ↦ pure b ])

  -- A loop: each of its rounds but the last consumes a byte.
  unfoldable pub repeat : S → Read B
  repeat a s = rounds (suc (length s.rest)) a s

abbrev pub header_limit : ℕ
header_limit = 1024 * 1024

unfoldable pub new : List ℕ → Option Text → Stream
new input ending = record { rest = input; ending = ending; offset = 0; header_start = none }

abbrev pub get_offset : Read ℕ
get_offset s = ok (s.offset, s)

abbrev pub begin_header : ℕ → Read (Unit {0})
begin_header start s = ok (tt, record s { header_start = some start })

abbrev pub end_header : Read (Unit {0})
end_header s = ok (tt, record s { header_start = none })

unfoldable pub peek : Read (Option ℕ)
peek s = elim s.rest [
  | [] ↦ elim s.ending [ none ↦ ok (none, s) | some e ↦ err (read_failed e) ]
  | byte ∷ _ ↦ ok (some byte, s)
]

-- The header has used up its budget.
abbrev pub is_spent : Stream → Bool
is_spent s = elim s.header_start [ none ↦ false | some start ↦ s.offset - start == header_limit ]

unfoldable pub take : Read (Option ℕ)
take = peek >>= λ next s. elim next [
  | none ↦ ok (none, s)
  | some byte ↦
      if is_spent s
      then err (invalid s.offset "LLVM header exceeds the 1 MiB budget")
      else if leb u64_max s.offset
      then err (invalid s.offset "LLVM byte offset exceeds u64")
      else ok (some byte, record s { rest = drop 1 s.rest; offset = s.offset + 1 })
]

-- `take` where the byte is known to be there: after a `peek`, or with the error at the end.
abbrev pub take_or : (ℕ → Error) → Read ℕ
take_or e = take >>= λ next. elim next [ some byte ↦ pure byte | none ↦ λ s. err (e s.offset) ]

-- `take()?.expect(..)` behind a `peek`.
abbrev pub take_peeked : Read ℕ
take_peeked = take_or (λ _. assertion "peek established the byte")

unfoldable pub skip_line : Read (Unit {0})
skip_line =
    repeat
      (λ (_ : Unit {0}). take >>= λ next. elim next [
        | none ↦ pure (done tt)
        | some byte ↦ pure (if byte == 10 then done tt else again tt)
      ])
      tt

-- `u8::is_ascii_whitespace`
abbrev pub is_ascii_whitespace : ℕ → Bool
is_ascii_whitespace byte = byte == b' ' || byte == 9 || byte == 10 || byte == 12 || byte == 13

abbrev pub is_ascii_alphabetic : ℕ → Bool
is_ascii_alphabetic byte = within b'a' b'z' byte || within b'A' b'Z' byte

unfoldable pub is_word : ℕ → Bool
is_word byte =
    is_ascii_digit byte
    || is_ascii_alphabetic byte
    || byte == b'_'
    || byte == b'.'
    || byte == b'$'
    || byte == b'-'

-- `u8::is_ascii_hexdigit`
unfoldable pub is_ascii_hexdigit : ℕ → Bool
is_ascii_hexdigit byte = is_ascii_digit byte || within b'a' b'f' byte || within b'A' b'F' byte

abbrev pub backslash : ℕ
backslash = 92

abbrev pub quote : ℕ
quote = 34
