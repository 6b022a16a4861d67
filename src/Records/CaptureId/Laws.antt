-- ===== src/Records/CaptureId/Laws.antt =====
-- Which texts are capture identifiers.
use optic.Prelude.{ℕ, true, List, ◌≡◌, ◌↔◌, sym, ap, ◌∙◌, arith, ok, All, length}
use optic.Prelude.Text.{Text}
use optic.Records.CaptureId.{CaptureId, generate, parse}
use optic.Records.ReverseHex.{encode, is_canonical}
use optic.Records.ReverseHex.Bijection.{IsByte, is_canonical_iff, length-encode}

-- What a value of the type satisfies by construction.
abbrev pub IsCanonical : CaptureId → Type 0
IsCanonical c = (length c.text ≡ 32) × (is_canonical c.text ≡ true)

pub parse_sound : (t : Text) (c : CaptureId) → parse t ≡ ok c → (c.text ≡ t) × IsCanonical c
unfolding parse
parse_sound t c h = ground arith

pub parse_complete : (c : CaptureId) → IsCanonical c → parse c.text ≡ ok c
unfolding parse
parse_complete c h = ground arith

-- A text parses exactly if it is the encoding of 16 bytes, and the identifier that it parses to is
-- the one generated from those bytes.
pub parse_iff :
    (t : Text) (c : CaptureId)
    → (parse t ≡ ok c) ↔ (
        (uuid : List ℕ) × (length uuid ≡ 16) × All IsByte uuid × (c ≡ generate uuid) × (t ≡ c.text))
unfolding generate
parse_iff t c = (
  λ h.
      let (same, canonical) = parse_sound t c h in
      let (uuid, bytes, e) = (is_canonical_iff c.text).0 canonical.1 in
      (
        uuid,
        omega (arith, canonical.0, length-encode uuid, ap (length {A = ℕ}) e),
        bytes,
        (λ i. record { text = e i }),
        sym same,
      ),
  λ (uuid, len, bytes, made, same).
      let text_is : c.text ≡ encode uuid = ap (λ (d : CaptureId). d.text) made in
      rw same (
        parse_complete c (
          ap (length {A = ℕ}) text_is ∙ omega (arith, length-encode uuid),
          (is_canonical_iff c.text).1 (uuid, bytes, text_is),
        )),
)
