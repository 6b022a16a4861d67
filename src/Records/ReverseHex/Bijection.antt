-- ===== src/Records/ReverseHex/Bijection.antt =====
-- The canonical texts are exactly the encodings, each of one byte sequence.
use optic.Prelude.{
  ℕ, ◌+◌, ◌-◌, ◌*◌, ◌/◌, ◌%◌, ◌<◌, true, ◌&&◌, List, [], ◌∷◌, ◌≡◌, ◌↔◌, refl, sym, ap, ap₂, subst,
  ◌∙◌, arith, All, all, length, ◌==◌, ==_iff, within, all_below, all_below_sound,
}
use optic.Prelude.Text.{Text}
use optic.Records.ReverseHex.{digit, encode, is_canonical}

abbrev pub IsByte : ℕ → Type 0
IsByte b = b < 256

digit_table : all_below 16 (λ i. digit i == 122 - i) ≡ true
digit_table = refl

-- The digits count down from `z`.
digit_lem : (i : ℕ) → i < 16 → digit i ≡ 122 - i
digit_lem i h =
    (==_iff (digit i) (122 - i)).0 (all_below_sound 16 (λ j. digit j == 122 - j) i digit_table h)

-- The reading that the encoding inverts.
abbrev pub decode : Text → List ℕ
decode [] = []
decode (high ∷ []) = []
decode (high ∷ low ∷ rest) = ((122 - high) * 16 + (122 - low)) ∷ decode rest

pub decode-encode : (bytes : List ℕ) → All IsByte bytes → decode (encode bytes) ≡ bytes
unfolding encode
decode-encode [] h = refl
decode-encode (b ∷ bs) (h, t) =
    ground (
      arith,
      digit_lem (b / 16) (omega arith),
      digit_lem (b % 16) (omega arith),
      decode-encode bs t,
    )

pub length-encode : (bytes : List ℕ) → length (encode bytes) ≡ 2 * length bytes
unfolding encode
length-encode [] = refl
length-encode (b ∷ bs) = omega (arith, length-encode bs)

pub all-encode : (bytes : List ℕ) → All IsByte bytes → all (within b'k' b'z') (encode bytes) ≡ true
unfolding encode
all-encode [] h = refl
all-encode (b ∷ bs) (h, t) =
    ground
      (arith, digit_lem (b / 16) (omega arith), digit_lem (b % 16) (omega arith), all-encode bs t)

digit_pair :
    (high low : ℕ)
    → within b'k' b'z' high ≡ true
    → within b'k' b'z' low ≡ true
    → IsByte ((122 - high) * 16 + (122 - low))
      × (digit (((122 - high) * 16 + (122 - low)) / 16) ≡ high)
      × (digit (((122 - high) * 16 + (122 - low)) % 16) ≡ low)
digit_pair high low h l =
    let b = (122 - high) * 16 + (122 - low) in
    ground (arith, digit_lem (b / 16), digit_lem (b % 16))

encode-decode :
    (t : Text)
    → length t % 2 ≡ 0
    → all (within b'k' b'z') t ≡ true
    → All IsByte (decode t) × (t ≡ encode (decode t))
unfolding encode
encode-decode [] e h = (tt, refl)
encode-decode (high ∷ []) e h = absurd (omega arith)
encode-decode (high ∷ low ∷ t) e h =
    let (byte, h_eq, l_eq) = digit_pair high low (ground arith) (ground arith) in
    let (bytes, t_eq) = encode-decode t (omega arith) (ground arith) in
    ((byte, bytes), ap₂ (◌∷◌) (sym h_eq) (ap₂ (◌∷◌) (sym l_eq) t_eq))

-- A text is canonical exactly if it encodes some bytes.
pub is_canonical_iff :
    (t : Text)
    → (is_canonical t ≡ true) ↔ ((bytes : List ℕ) × All IsByte bytes × (t ≡ encode bytes))
unfolding is_canonical
is_canonical_iff t = (
  λ h. let (bytes, e) = encode-decode t (ground arith) (ground arith) in (decode t, bytes, e),
  λ (bytes, are_bytes, e).
      subst (λ u. (length u % 2 == 0 && all (within b'k' b'z') u) ≡ true) (sym e)
        (ground (arith, length-encode bytes, all-encode bytes are_bytes)),
)

-- Different byte sequences have different encodings.
pub encode-injective : (a b : List ℕ) → All IsByte a → All IsByte b → encode a ≡ encode b → a ≡ b
encode-injective a b ha hb e = sym (decode-encode a ha) ∙ ap decode e ∙ decode-encode b hb
