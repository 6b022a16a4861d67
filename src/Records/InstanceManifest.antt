-- ===== src/Records/InstanceManifest.antt =====
-- crates/cargo-optic-records/src/instance_manifest.rs
pub mod Valid
use optic.Prelude.{
  ℕ, Bool, true, false, not, ◌&&◌, ◌||◌, Option, none, some, List, [], ◌∷◌, ◌++◌, map, ◌≡◌, ok, err,
  ◌>>=◌, ◌>>◌, ensure, ok_or, for_each, ltb, leb, ◌==◌, if◌then◌else◌, Eq, key_eq, list_beq,
  list_beq_iff, contains, first_duplicate,
}
use optic.Prelude.Text.{Text, text_eq, text_beq, codes}
use optic.Records.Artifact.{ArtifactId, artifact_id_eq, ArtifactKind, kind_beq, ArtifactRecord}
use optic.Records.ByteRange
use optic.Records.ByteRange.{ByteRange}
use optic.Records.CaptureId.{CaptureId}
use optic.Records.DefinitionRecord.{DefinitionRecord}
use optic.Records.Error.{
  Checked, unsupported_format, invalid_field, duplicate_artifact, duplicate_instance,
  unknown_artifact, outside_artifact, unsupported_collection, duplicate_module, stage_disagrees,
  missing_module, without_module,
}
use optic.Records.InstanceRecord.{InstanceRecord}
use optic.Records.LlvmDefinitionRecord.{LlvmDefinitionRecord}
use optic.Records.LlvmModuleRecord.{
  LlvmStage, no_lto_optimized, local_thin_lto_post_pass_manager, LlvmModuleRecord, LlvmCollection,
  collected, not_captured,
}
use optic.Records.LlvmProvenance.{LlvmLto, off, local_thin, LlvmProvenance}
use optic.Records.PlacementRecord.{PlacementRecord}
use optic.Records.SourceRecord.{SourceAvailability, available, unavailable}
use optic.Records.Identity.{Identity, identity, identity_eq}
use optic.Records.Collection.{validate_artifact_range, validate_llvm}

-- crates/cargo-optic-records/src/lib.rs
abbrev pub capture_format_version : ℕ
capture_format_version = 4

pub record InstanceManifest : Type 0 where
  pub format_version : ℕ
  pub capture_id : CaptureId
  pub instances : List InstanceRecord
  pub artifacts : List ArtifactRecord
  pub llvm_provenance : LlvmProvenance
  pub llvm : LlvmCollection

unfoldable pub check_artifacts : List ArtifactRecord → Checked (Unit {0})
check_artifacts artifacts =
    elim (first_duplicate [] (map (λ (a : ArtifactRecord). a.id) artifacts)) [
      | none ↦ ok tt
      | some id ↦ err (invalid_field "artifact table" (duplicate_artifact id.value))
    ]

-- `if let SourceAvailability::Available(source) = instance.source()`
abbrev pub check_source : List ArtifactRecord → SourceAvailability → Checked (Unit {0})
check_source artifacts (available s) =
    validate_artifact_range artifacts s.artifact ArtifactKind.source s.range
check_source artifacts (unavailable reason) = ok tt

-- The loop over the instances, with the identities inserted so far.
unfoldable pub check_instances :
    List ArtifactRecord → List Identity → List InstanceRecord → Checked (Unit {0})
check_instances artifacts seen [] = ok tt
check_instances artifacts seen (i ∷ rest) =
    let later = check_instances artifacts (identity i ∷ seen) rest in
    if contains seen (identity i)
    then err (invalid_field "instance manifest" (duplicate_instance i.display_name))
    else (check_source artifacts i.source >> later)

unfoldable pub new :
    CaptureId
    → List InstanceRecord
    → List ArtifactRecord
    → LlvmProvenance
    → LlvmCollection
    → Checked InstanceManifest
unfolding check_artifacts check_instances validate_llvm
new capture_id instances artifacts llvm_provenance llvm = do
  check_artifacts artifacts
  check_instances artifacts [] instances
  validate_llvm instances artifacts llvm_provenance llvm
  ok (record {
    format_version = capture_format_version;
    capture_id = capture_id;
    instances = instances;
    artifacts = artifacts;
    llvm_provenance = llvm_provenance;
    llvm = llvm;
  })

pub record RawInstanceManifest : Type 0 where
  pub format_version : ℕ
  pub capture_id : CaptureId
  pub instances : List InstanceRecord
  pub artifacts : List ArtifactRecord
  pub llvm_provenance : LlvmProvenance
  pub llvm : LlvmCollection

unfoldable pub try_from : RawInstanceManifest → Checked InstanceManifest
unfolding new
try_from raw = do
  ensure (raw.format_version == capture_format_version)
      (unsupported_format capture_format_version raw.format_version)
  new raw.capture_id raw.instances raw.artifacts raw.llvm_provenance raw.llvm
