-- ===== src/Compiler/Format.antt =====
-- The wire format that protocol.rs documents, as the bytes of each part, and rules by which a writer
-- writes such bytes and a decoder reads them back.
use optic.Prelude.{
  ℕ, zero, suc, ◌/◌, ◌^◌, ◌≤◌, ◌<◌, ◌≡◌, refl, sym, ap, ◌∙◌, subst, arith, String, Bool, true,
  false, Option, List, [], ◌∷◌, ◌++◌, append_assoc, Result, ok, err, length, length-append, take,
  drop,
}
use native.Mathlib.Nat.{pow-suc}
use optic.Prelude.Text.{Text}
use optic.Records.Decimal.{u64_max}
use optic.Records.Validation.{FilePath}
use optic.Store.{IoError}
use optic.LlvmIndex.Symbol.{is_utf8}
use optic.Compiler.{Error}
use optic.Compiler.Protocol.{u32_max}
use optic.Compiler.Wire.{
  Decode, pure, lift, continue, ◌>>=◌, ◌>>◌, read_exact, read_u32, read_u64, read_bool, read_string,
  string_of, from_le_bytes, to_le_bytes,
}
use optic.Compiler.Writer.{bool_code}
use optic.Compiler.Wire.Sound.{read_exact_enough, take-append, drop-append}

-- A decoder reads exactly these bytes, whatever is behind them.
pub record Reads {A : Type 0} (bytes : List ℕ) (d : Decode A) (r : Result Error A) : Type 0 where
  pub reads :
      (rest : List ℕ) (ending : Option IoError)
      → d (record { bytes = bytes ++ rest; ending = ending })
        ≡ lift r (record { bytes = rest; ending = ending })

module _ {A B : Type 0} where
  pub value :
      {a b : List ℕ} {d : Decode A} (f : A → Decode B) {x : A} {r : Result Error B}
      → Reads a d (ok x)
      → Reads b (f x) r
      → Reads (a ++ b) (d >>= f) r
  value {a} {b} {d} f {x} {r} m k = record {
    reads = λ rest ending.
        ap (λ (bytes : List ℕ). continue (d (record { bytes = bytes; ending = ending })) f)
          (append_assoc a b rest)
        ∙ ap (λ s. continue s f) (m.reads (b ++ rest) ending)
        ∙ k.reads rest ending;
  }

  -- The last field.
  pub last :
      {a : List ℕ} {d : Decode A} (f : A → Decode B) {x : A} {r : Result Error B}
      → Reads a d (ok x)
      → Reads [] (f x) r
      → Reads a (d >>= f) r
  last f {x} m k = record {
    reads = λ rest ending. ap (λ s. continue s f) (m.reads rest ending) ∙ k.reads rest ending;
  }

  -- A check that passes.
  pub check :
      {b : List ℕ} {r' : Result Error A} (f : A → Decode B) {x : A} {r : Result Error B}
      → r' ≡ ok x
      → Reads b (f x) r
      → Reads b (lift r' >>= f) r
  check {b} f e k = record {
    reads = λ rest ending.
        ap (λ c. continue (lift c (record { bytes = b ++ rest; ending = ending })) f) e
        ∙ k.reads rest ending;
  }

-- A condition that holds.
pub passed :
    {B : Type 0} {b : List ℕ} (r' : Result Error (Unit {0})) {k : Decode B} {r : Result Error B}
    → r' ≡ ok tt
    → Reads b k r
    → Reads b (lift r' >> k) r
passed r' {k} e m = check (λ _. k) e m

pub lifted : {A : Type 0} (r : Result Error A) → Reads [] (lift r) r
lifted r = record { reads = λ rest ending. refl }

pub length-to_le_bytes : (w n : ℕ) → length (to_le_bytes w n) ≡ w
unfolding to_le_bytes
length-to_le_bytes zero n = refl
length-to_le_bytes (suc w) n = ap suc (length-to_le_bytes w (n / 256))

pub from-to_le_bytes : (w n : ℕ) → n < 256 ^ w → from_le_bytes (to_le_bytes w n) ≡ n
unfolding to_le_bytes from_le_bytes
from-to_le_bytes zero n h = omega (arith, h)
from-to_le_bytes (suc w) n h =
    let smaller : n / 256 < 256 ^ w = omega (arith, pow-suc 256 w, h) in
    omega (arith, from-to_le_bytes w (n / 256) smaller)

take_all : (xs : List ℕ) → take (length xs) xs ≡ xs
take_all [] = refl
take_all (x ∷ xs) = ap (λ l. x ∷ l) (take_all xs)

drop_all : (xs : List ℕ) → drop (length xs) xs ≡ []
drop_all [] = refl
drop_all (x ∷ xs) = drop_all xs

-- The strings of the format: UTF-8, with a length that fits `u32`.
pub record IsString (s : Text) : Type 0 where
  pub utf8 : is_utf8 s ≡ true
  pub short : length s ≤ u32_max

abbrev pub u32_bytes : ℕ → List ℕ
u32_bytes n = to_le_bytes 4 n

abbrev pub u64_bytes : ℕ → List ℕ
u64_bytes n = to_le_bytes 8 n

abbrev pub string_bytes : Text → List ℕ
string_bytes s = u32_bytes (length s) ++ s

module _ (path : FilePath) (field : String) where
  pub exact : (bytes : List ℕ) → Reads bytes (read_exact path (length bytes) field) (ok bytes)
  exact bytes = record {
    reads = λ rest ending.
        read_exact_enough path (length bytes) field
          (record { bytes = bytes ++ rest; ending = ending })
          (omega (arith, length-append bytes rest))
        ∙ cc (
          take-append (length bytes) bytes rest (omega arith),
          drop-append (length bytes) bytes rest (omega arith),
          take_all bytes,
          drop_all bytes,
        );
  }

  number : (w n : ℕ) → Reads (to_le_bytes w n) (read_exact path w field) (ok (to_le_bytes w n))
  number w n =
      subst (λ k. Reads (to_le_bytes w n) (read_exact path k field) (ok (to_le_bytes w n)))
        (length-to_le_bytes w n) (exact (to_le_bytes w n))

  pub u32 : (n : ℕ) → n ≤ u32_max → Reads (u32_bytes n) (read_u32 path field) (ok n)
  unfolding read_u32
  u32 n h = last _ (number 4 n) (
      subst (λ m. Reads [] (pure m) (ok n)) (sym (from-to_le_bytes 4 n (omega (arith, h))))
        (lifted (ok n)))

  pub u64 : (n : ℕ) → n ≤ u64_max → Reads (u64_bytes n) (read_u64 path field) (ok n)
  unfolding read_u64
  u64 n h = last _ (number 8 n) (
      subst (λ m. Reads [] (pure m) (ok n)) (sym (from-to_le_bytes 8 n (omega (arith, h))))
        (lifted (ok n)))

  accepted : (s : Text) → IsString s → string_of path field s ≡ ok s
  accepted s h = rw h.utf8

  pub flag : (b : Bool) → Reads (u32_bytes (bool_code b)) (read_bool path field) (ok b)
  unfolding read_bool
  flag false = last _ (u32 0 (omega arith)) (lifted (ok false))
  flag true = last _ (u32 1 (omega arith)) (lifted (ok true))

  pub string : (s : Text) → IsString s → Reads (string_bytes s) (read_string path field) (ok s)
  unfolding read_string
  string s h = value _ (u32 (length s) h.short) (
      last _ (exact s) (subst (λ r. Reads [] (lift r) (ok s)) (sym (accepted s h)) (lifted (ok s))))

-- `Result::and_then`
abbrev pub and_then : {A B : Type 0} → Result Error A → (A → Result Error B) → Result Error B
and_then (ok x) g = g x
and_then (err e) g = err e

module _ {A B : Type 0} {f : A → Decode B} (g : A → Result Error B) where
  -- A step that may be refused, with more fields behind it.
  pub sequence :
      {a b : List ℕ} {d : Decode A} (r : Result Error A)
      → Reads a d r
      → ((x : A) → Reads b (f x) (g x))
      → Reads (a ++ b) (d >>= f) (and_then r g)
  sequence (ok x) m k = value f m (k x)
  sequence {a} {b} {d} (err e) m k = record {
    reads = λ rest ending.
        ap (λ (bytes : List ℕ). continue (d (record { bytes = bytes; ending = ending })) f)
          (append_assoc a b rest)
        ∙ ap (λ s. continue s f) (m.reads (b ++ rest) ending);
  }

  -- The same where nothing more is read.
  pub sequence_last :
      {a : List ℕ} {d : Decode A} (r : Result Error A)
      → Reads a d r
      → ((x : A) → Reads [] (f x) (g x))
      → Reads a (d >>= f) (and_then r g)
  sequence_last (ok x) m k = last f m (k x)
  sequence_last (err e) m k = record {
    reads = λ rest ending. ap (λ s. continue s f) (m.reads rest ending);
  }

  -- A check that may fail, behind the last field.
  pub checked :
      (r : Result Error A)
      → ((x : A) → Reads [] (f x) (g x))
      → Reads [] (lift r >>= f) (and_then r g)
  checked (ok x) k = k x
  checked (err e) k = record { reads = λ rest ending. refl }

pub and_then-ok :
    {A B C : Type 0} (r : Result Error A) (h : A → B) (g : B → Result Error C)
    → and_then (and_then r (λ x. ok (h x))) g ≡ and_then r (λ x. g (h x))
and_then-ok (ok x) h g = refl
and_then-ok (err e) h g = refl
