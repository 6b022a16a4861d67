-- ===== src/Compiler/Collection.antt =====
-- crates/cargo-optic-compiler/src/collection.rs, and the collection of src/prepared.rs: one run of
-- Cargo under a new token, whose driver writes the manifest that is read here.
pub mod Origin
use optic.Prelude.{
  ℕ, true, false, not, Option, none, some, List, [], Result, ok, err, ◌>>=◌, ◌>>◌, ensure, map_err,
}
use optic.Prelude.Text.{Text, codes}
use optic.Records.AnalysisToken.{AnalysisToken}
use optic.Records.Artifact.{ArtifactRecord}
use optic.Records.BuildRecord.{BuildRecord}
use optic.Records.CaptureId.{CaptureId}
use optic.Records.CaptureRecord.{CaptureAnalysis}
use optic.Records.CargoArtifactRecord.{Target, CargoArtifactRecord, Orders}
use optic.Records.CompilerIdentity.{CompilerIdentity}
use optic.Records.InstanceManifest
use optic.Records.InstanceManifest.{InstanceManifest}
use optic.Records.InstanceRecord.{InstanceRecord}
use optic.Records.LlvmModuleRecord.{LlvmCollection}
use optic.Records.LlvmProvenance.{LlvmProvenance}
use optic.Records.Validation.{FilePath}
use optic.Compiler.{Error, invalid_record, panicked, process_failed}
use optic.Compiler.Artifacts
use optic.Compiler.Artifacts.{Tools, CollectedEvidence, join}
use optic.Compiler.Attempt.{CargoAttempt, replay, run}
use optic.Compiler.Decoder.{read_manifest}
use optic.Compiler.Observation.{completed}
use optic.Compiler.Probe.{
  PreparedBuild, Terminal, require, selected_target_marker, stale_path, manifest_path,
  verified_stale_receipt,
}
use optic.Compiler.Wire.{Failure, exhausted}

pub record CollectedBuild : Type 0 where
  pub build : BuildRecord
  pub compiler : CompilerIdentity
  pub instances : List InstanceRecord
  pub artifacts : List ArtifactRecord
  pub provenance : LlvmProvenance
  pub llvm : LlvmCollection
  pub analysis : CaptureAnalysis CargoArtifactRecord
  pub temporary : FilePath

-- `CollectedBuild::into_parts`: the other parts are the fields.
unfoldable pub into_manifest : CaptureId → CollectedBuild → Result Error InstanceManifest
into_manifest id collected = map_err invalid_record (
    InstanceManifest.new id collected.instances collected.artifacts collected.provenance
      collected.llvm)

abbrev pub of_failure : Failure → Error
of_failure (Failure.failed e) = e
of_failure exhausted = panicked "every record of the manifest takes a byte"

abbrev pub collected_build :
    PreparedBuild
    → AnalysisToken
    → CargoAttempt
    → CargoArtifactRecord
    → CollectedEvidence
    → CollectedBuild
collected_build prepared token attempt artifact evidence = record {
  build = prepared.build;
  compiler = prepared.compiler;
  instances = evidence.instances;
  artifacts = evidence.artifacts;
  provenance = evidence.provenance;
  llvm = evidence.llvm;
  analysis = record { request_key = prepared.request_key; token = token; artifact = artifact };
  temporary = attempt.files.directory;
}

module _ (orders : Orders) (cargo : FilePath) (owner : Text) (target : Target) (terminal : Terminal)
    (tools : Tools) where
  -- `collect_new_token` once Cargo has run and its diagnostics are shown.
  unfoldable pub evidence_of :
      PreparedBuild → AnalysisToken → CargoAttempt → Result Error CollectedBuild
  unfolding selected_target_marker verified_stale_receipt completed read_manifest Artifacts.collect
  evidence_of prepared token attempt = do
    let marker = selected_target_marker token
    ensure attempt.success (process_failed cargo attempt.status none)
    is_stale ← verified_stale_receipt attempt.files stale_path marker
    require (not is_stale) "collection requires no stale receipt"
    artifact ← completed orders target false attempt.observation
    manifest ←
        map_err of_failure
          (read_manifest manifest_path (attempt.files.open_file manifest_path) marker)
    evidence ← Artifacts.collect tools manifest prepared.compiler (join attempt.files.directory [])
    ok (collected_build prepared token attempt artifact evidence)

  unfoldable pub collect_new_token : PreparedBuild → AnalysisToken → Result Error CollectedBuild
  unfolding selected_target_marker run replay evidence_of
  collect_new_token prepared token = do
    process ← terminal.command (selected_target_marker token) (codes "collect")
    attempt ← run terminal.stderr orders cargo owner target process
    replayed ← replay terminal.stderr attempt
    evidence_of prepared token replayed

  abbrev pub after_failure : {A : Type 0} → Option CargoAttempt → Error → Result Error A
  after_failure none e = err e
  after_failure (some attempt) e = do _ ← replay terminal.stderr attempt; err e

  abbrev pub or_replay :
      Option CargoAttempt → Result Error CollectedBuild → Result Error CollectedBuild
  or_replay stopped (ok build) = ok build
  or_replay stopped (err e) = after_failure stopped e

  -- `PreparedBuild::collect`
  unfoldable pub collect : PreparedBuild → AnalysisToken → Result Error CollectedBuild
  unfolding collect_new_token replay
  collect prepared token = or_replay prepared.stopped_probe (collect_new_token prepared token)
