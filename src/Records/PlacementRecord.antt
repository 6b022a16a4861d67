-- ===== src/Records/PlacementRecord.antt =====
-- crates/cargo-optic-records/src/placement_record.rs
use optic.Prelude.{ℕ, Bool, ok, ◌>>◌}
use optic.Prelude.Text.{Text, text_eq}
use optic.Records.Error.{Checked}
use optic.Records.Validation.{require_text}

pub record PlacementRecord : Type 0 where
  pub codegen_unit : Text
  pub linkage : Text
  pub visibility : Text
  pub local_copy : Bool
  pub size_estimate : ℕ

unfoldable pub new : Text → Text → Text → Bool → ℕ → Checked PlacementRecord
new codegen_unit linkage visibility local_copy size_estimate = do
  require_text "codegen unit" codegen_unit
  require_text "placement linkage" linkage
  require_text "placement visibility" visibility
  ok (record {
    codegen_unit = codegen_unit;
    linkage = linkage;
    visibility = visibility;
    local_copy = local_copy;
    size_estimate = size_estimate;
  })

pub record RawPlacementRecord : Type 0 where
  pub codegen_unit : Text
  pub linkage : Text
  pub visibility : Text
  pub local_copy : Bool
  pub size_estimate : ℕ

unfoldable pub try_from : RawPlacementRecord → Checked PlacementRecord
unfolding new
try_from raw = new raw.codegen_unit raw.linkage raw.visibility raw.local_copy raw.size_estimate
