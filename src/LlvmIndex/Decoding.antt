-- ===== src/LlvmIndex/Decoding.antt =====
-- What decoding a validated symbol gives.
use optic.Prelude.{
  ℕ, suc, ◌+◌, ◌-◌, ◌*◌, Bool, true, false, not, ◌&&◌, List, [], ◌∷◌, ◌++◌, all, length-append, ◌≡◌,
  refl, sym, ap, subst, ◌∙◌, inl, inr, arith, Result, ok, err, length, ◌==◌, ==_iff, if◌then◌else◌,
  Bool-cases,
}
use optic.Prelude.Text.{is_ascii_digit, starts_with}
use optic.LlvmIndex.Stream.{Error, invalid, Stream, is_ascii_hexdigit, backslash, quote}
use optic.LlvmIndex.Token.{Token}
use optic.LlvmIndex.Symbol.{hex, push, decode_bytes, decode_name, decode_symbol, finish, is_utf8}
use optic.LlvmIndex.Header.{lift}
use optic.LlvmIndex.Runs.{IsReal, Runs, returns, fails, Reads, Reads-refl}
use optic.LlvmIndex.Runs.Quoted.{Quoted, nothing, character, backslashes, digits, IsClosed}
use optic.LlvmIndex.Runs.Tokens.{IsValidated}

-- The name that quoted bytes stand for.
abbrev pub meaning : {body : List ℕ} → Quoted body → List ℕ
meaning nothing = []
meaning (character c rest h h' q) = c ∷ meaning q
meaning (backslashes rest q) = backslash ∷ meaning q
meaning (digits x y rest h h' q) = (hex x * 16 + hex y) ∷ meaning q

-- A byte that begins no escape stands for itself.
decode_plain :
    (quoted : Bool) (left byte : ℕ) (rest : List ℕ)
    → (quoted && byte == backslash) ≡ false
    → decode_bytes quoted (suc left) (byte ∷ rest) ≡ push byte (decode_bytes quoted left rest)
unfolding decode_bytes
decode_plain quoted left byte [] h = rw (h, decode_bytes) refl
decode_plain quoted left byte (x ∷ []) h = rw (h, decode_bytes) refl
decode_plain quoted left byte (x ∷ y ∷ rest) h = rw (h, decode_bytes) refl

pub digit_not_backslash : (x : ℕ) → is_ascii_hexdigit x ≡ true → (x == backslash) ≡ false
unfolding is_ascii_hexdigit is_ascii_digit
digit_not_backslash x h = ground arith

decode_backslashes :
    (left : ℕ) (rest : List ℕ)
    → decode_bytes true (suc (suc left)) (backslash ∷ backslash ∷ rest)
      ≡ push backslash (decode_bytes true left rest)
unfolding decode_bytes
decode_backslashes left [] = ap (λ n. push backslash (decode_bytes true n [])) (omega arith)
decode_backslashes left (x ∷ rest) =
    ap (λ n. push backslash (decode_bytes true n (x ∷ rest))) (omega arith)

decode_digits :
    (left x y : ℕ) (rest : List ℕ)
    → is_ascii_hexdigit x ≡ true
    → decode_bytes true (suc (suc (suc left))) (backslash ∷ x ∷ y ∷ rest)
      ≡ push (hex x * 16 + hex y) (decode_bytes true left rest)
unfolding decode_bytes
decode_digits left x y rest h =
    rw (digit_not_backslash x h, decode_bytes)
      (ap (λ n. push (hex x * 16 + hex y) (decode_bytes true n rest)) (omega arith))

-- The loop reads quoted bytes to their end, whatever follows.
decode_quoted :
    {body : List ℕ} (q : Quoted body) (after : List ℕ)
    → decode_bytes true (length body) (body ++ after) ≡ ok (meaning q)
unfolding decode_bytes
decode_quoted nothing after = refl
decode_quoted (character c rest h h' q) after =
    decode_plain true (length rest) c (rest ++ after) h' ∙ ap (push c) (decode_quoted q after)
decode_quoted (backslashes rest q) after =
    decode_backslashes (length rest) (rest ++ after) ∙ ap (push backslash) (decode_quoted q after)
decode_quoted (digits x y rest h h' q) after =
    decode_digits (length rest) x y (rest ++ after) h
    ∙ ap (push (hex x * 16 + hex y)) (decode_quoted q after)

-- Without quotes, every byte stands for itself.
decode_unquoted : (bytes : List ℕ) → decode_bytes false (length bytes) bytes ≡ ok bytes
unfolding decode_bytes
decode_unquoted [] = refl
decode_unquoted (byte ∷ rest) =
    decode_plain false (length rest) byte rest refl ∙ ap (push byte) (decode_unquoted rest)

length-quoted : (body : List ℕ) → length (body ++ quote ∷ []) - 1 ≡ length body
length-quoted body = omega (arith, length-append body (quote ∷ []))

quoted_name :
    (rest body : List ℕ) (q : Quoted body)
    → rest ≡ body ++ quote ∷ []
    → decode_bytes true (length rest - 1) rest ≡ ok (meaning q)
quoted_name rest body q e =
    subst (λ r. decode_bytes true (length r - 1) r ≡ ok (meaning q)) (sym e)
      (ap (λ n. decode_bytes true n (body ++ quote ∷ [])) (length-quoted body)
        ∙ decode_quoted q (quote ∷ []))

-- A quoted symbol decodes to the name that its bytes stand for, where that is UTF-8.
pub decode_symbol_quoted :
    (body : List ℕ) (q : Quoted body) (offset : ℕ)
    → decode_symbol (record { bytes = b'@' ∷ quote ∷ body ++ quote ∷ []; offset = offset }) ≡ (
        if is_utf8 (meaning q)
        then ok (meaning q)
        else err (invalid (offset) "Expected a UTF-8 LLVM symbol"))
unfolding decode_symbol decode_name starts_with
decode_symbol_quoted body q offset =
    ap (finish offset) (quoted_name (body ++ quote ∷ []) body q refl)

-- A failure is one of the input.
abbrev pub IsSound : {A : Type 0} → Result Error A → Type 0
IsSound (ok a) = Unit
IsSound (err e) = IsReal e

-- Both branches of a test.
test-IsSound :
    {A : Type 0} (b : Bool) (r r' : Result Error A)
    → IsSound r
    → IsSound r'
    → IsSound (if b then r else r')
test-IsSound true r r' h h' = h
test-IsSound false r r' h h' = h'

finish-IsSound :
    (offset : ℕ) (r : Result Error (List ℕ)) (bytes : List ℕ)
    → r ≡ ok bytes
    → IsSound (finish offset r)
finish-IsSound offset r bytes e =
    subst (λ r. IsSound (finish offset r)) (sym e) (test-IsSound (is_utf8 bytes) _ _ tt tt)

quoted-IsSound :
    (offset : ℕ) (rest : List ℕ)
    → IsClosed rest
    → IsSound (finish offset (decode_bytes true (length rest - 1) rest))
quoted-IsSound offset rest (body, (q, e)) =
    finish-IsSound offset _ (meaning q) (quoted_name rest body q e)

decode_name-IsSound :
    (offset : ℕ) (bytes : List ℕ) → IsValidated (b'@' ∷ bytes) → IsSound (decode_name offset bytes)
unfolding decode_name
decode_name-IsSound offset [] h = tt
decode_name-IsSound offset (first ∷ rest) h = elim (Bool-cases (first == quote)) [
  | inl e ↦
      rw e
        (quoted-IsSound offset rest (h rest (ap (λ c. b'@' ∷ c ∷ rest) ((==_iff first quote).0 e))))
  | inr e ↦ rw e (
      test-IsSound (is_ascii_digit first && not (all is_ascii_digit (first ∷ rest))) _ _ tt
        (finish-IsSound offset _ (first ∷ rest) (decode_unquoted (first ∷ rest))))
]

symbol_of :
    (offset : ℕ) (bytes : List ℕ)
    → IsValidated bytes
    → IsSound (decode_symbol (record { bytes = bytes; offset = offset }))
unfolding decode_symbol starts_with
symbol_of offset [] h = tt
symbol_of offset (c ∷ rest) h = elim (Bool-cases (b'@' == c)) [
  | inl e ↦ rw e (
      decode_name-IsSound offset rest
        (subst (λ x. IsValidated (x ∷ rest)) (sym ((==_iff b'@' c).0 e)) h))
  | inr e ↦ rw e tt
]

-- Of a token that was read, decoding fails with an error of the input at most.
pub decode_symbol-IsSound :
    (token : Token) → IsValidated token.bytes → IsSound (decode_symbol token)
decode_symbol-IsSound token h = symbol_of token.offset token.bytes h

lifted :
    {A : Type 0} (r : Result Error A) (s : Stream)
    → IsSound r
    → Runs (λ _ t. Reads 0 s t) (lift r s)
lifted (ok a) s h = returns a s (Reads-refl s)
lifted (err e) s h = fails e h

pub decode-Runs :
    (token : Token) (s : Stream)
    → IsValidated token.bytes
    → Runs (λ _ t. Reads 0 s t) (lift (decode_symbol token) s)
decode-Runs token s h = lifted (decode_symbol token) s (decode_symbol-IsSound token h)
