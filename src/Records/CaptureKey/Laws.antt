-- ===== src/Records/CaptureKey/Laws.antt =====
-- Which texts are capture keys.
use optic.Prelude.{true, ◌≡◌, ◌↔◌, arith, ok, all, length}
use optic.Prelude.Text.{Text}
use optic.Records.CaptureKey.{CaptureKey, is_lower_hex, parse}

-- A text parses exactly if it is 64 lowercase hexadecimal digits, and parses to itself.
pub parse_key_iff :
    (t : Text) (k : CaptureKey)
    → (parse t ≡ ok k) ↔ ((k.text ≡ t) × (length t ≡ 64) × (all is_lower_hex t ≡ true))
unfolding parse
parse_key_iff t k = (λ h. ground arith, λ h. ground arith)
