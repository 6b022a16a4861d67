-- ===== src/Evidence.antt =====
-- crates/cargo-optic-evidence/src: queries on one capture. lib.rs, error.rs and evidence_range.rs
-- are here, the three queries in the child modules.
pub mod Find
pub mod Llvm
pub mod Source
use optic.Prelude.{
  ℕ, Option, none, some, List, [], ◌∷◌, ◌≡◌, ◌↔◌, arith, Result, ok, err, ok_or, length, get_elem?,
}
use optic.Prelude.Text.{Text}
use optic.Records.Artifact.{ArtifactId}
use optic.Records.ByteRange.{ByteRange}
use optic.Records.CaptureId.{CaptureId}
use optic.Records.InstanceManifest.{InstanceManifest}
use optic.Records.InstanceManifest.Valid.{IsManifest}
use optic.Records.InstanceRecord.{InstanceRecord}
use optic.Records.InstanceRef.{InstanceRef}

-- The errors of a query, over those of the store. `out_of_fuel` is of the model: the loop that
-- follows aliases never returns it.
pub data Error (F : Type 0) : Type 0 where
  empty_query : Text → Error F
  invalid_limit : ℕ → Error F
  invalid_instance_reference : InstanceRef → ℕ → Error F
  alias_cycle : InstanceRef → Text → Text → Error F
  store : F → Error F
  out_of_fuel : Error F

-- What a query needs of `optic_store::Store`: reading a capture's manifest, which is validated
-- when it is read and belongs to the capture that was asked for.
pub record Store (F : Type 0) : Type 0 where
  pub read_instances : CaptureId → Result F InstanceManifest
  pub read_valid :
      (id : CaptureId) (m : InstanceManifest)
      → read_instances id ≡ ok m
      → IsManifest m × (m.capture_id ≡ id)

pub record EvidenceRange : Type 0 where
  pub capture_id : CaptureId
  pub artifact : ArtifactId
  pub range : ByteRange

-- `usize::try_from` does not fail where `usize` has 64 bits.
unfoldable pub referenced_instance :
    {F : Type 0} → InstanceManifest → InstanceRef → Result (Error F) InstanceRecord
referenced_instance manifest reference =
    ok_or (get_elem? manifest.instances reference.ordinal)
      (invalid_instance_reference reference (length manifest.instances))

pub referenced_instance_iff :
    {F : Type 0} (manifest : InstanceManifest) (reference : InstanceRef) (i : InstanceRecord)
    → (referenced_instance {F = F} manifest reference ≡ ok i)
      ↔ (get_elem? manifest.instances reference.ordinal ≡ some i)
unfolding referenced_instance
referenced_instance_iff manifest reference i = (λ h. ground arith, λ h. ground arith)
