-- ===== src/Records/Artifact.antt =====
-- crates/cargo-optic-records/src/artifact.rs
pub mod Names
use optic.Prelude.{
  ℕ, zero, suc, ◌+◌, ◌-◌, ◌/◌, ◌%◌, Bool, true, false, List, [], ◌∷◌, ◌++◌, ltb, if◌then◌else◌, Eq,
  key_eq, nat_eq,
}
use optic.Prelude.Text.{Text, codes}

pub record ArtifactId : Type 0 where
  pub value : ℕ

instance abbrev pub artifact_id_eq : Eq ArtifactId
artifact_id_eq = key_eq (λ (a : ArtifactId). a.value) (λ a b p i. record { value = p i }) nat_eq

pub data ArtifactKind : Type 0 where
  source llvm : ArtifactKind

abbrev pub kind_beq : ArtifactKind → ArtifactKind → Bool
kind_beq source source = true
kind_beq llvm llvm = true
kind_beq _ _ = false

pub record ArtifactRecord : Type 0 where
  pub id : ArtifactId
  pub kind : ArtifactKind
  pub byte_len : ℕ

abbrev pub hex_digit : ℕ → ℕ
hex_digit d = if ltb d 10 then b'0' + d else b'a' + (d - 10)

-- `{:016x}`: a `u64` has at most 16 hexadecimal digits, and shorter ones are padded by zeros.
unfoldable pub hex_onto : ℕ → ℕ → Text → Text
hex_onto zero n out = out
hex_onto (suc width) n out = hex_onto width (n / 16) (hex_digit (n % 16) ∷ out)

abbrev pub prefix : Text
prefix = codes "artifact-"

unfoldable pub file_name : ArtifactRecord → Text
unfolding hex_onto
file_name a = prefix ++ hex_onto 16 a.id.value []
