-- ===== src/Records.antt =====
-- The crate `cargo-optic-records`: validated identities, provenance and evidence metadata.
pub mod Error
pub mod Validation
pub mod ReverseHex
pub mod Decimal
pub mod CaptureId
pub mod CaptureKey
pub mod CaptureRecord
pub mod CargoArtifactRecord
pub mod AnalysisToken
pub mod InstanceRef
pub mod ByteRange
pub mod Artifact
pub mod DefinitionRecord
pub mod PlacementRecord
pub mod TargetRecord
pub mod CompilerIdentity
pub mod BuildRecord
pub mod SourceRecord
pub mod LlvmProvenance
pub mod LlvmDefinitionRecord
pub mod LlvmModuleRecord
pub mod InstanceRecord
pub mod Identity
pub mod Collection
pub mod InstanceManifest
