-- ===== src/Capture.antt =====
-- crates/cargo-optic-capture/src/lib.rs, over the probe and the collection of the compiler crate:
-- reuse of a fresh capture, or collection and publication of a new one. The preparation of a build
-- is given by an interface, with the processes that the probe and the collection run.
pub mod Reusing
pub mod Outcomes
use optic.Prelude.{ℕ, Option, none, some, List, Result, ok, err, map_err}
use optic.Records.ByteRange
use optic.Records.Artifact.{ArtifactRecord}
use optic.Records.BuildRecord.{BuildRecord}
use optic.Records.CaptureId.{CaptureId}
use optic.Records.CaptureKey.{CaptureKey}
use optic.Records.CaptureRecord
use optic.Records.CaptureRecord.{CaptureAnalysis, CaptureRecord, RawCaptureRecord}
use optic.Records.CargoArtifactRecord.{Target, CargoArtifactRecord, Orders}
use optic.Records.CompilerIdentity.{CompilerIdentity}
use optic.Records.InstanceManifest
use optic.Records.InstanceManifest.{InstanceManifest, RawInstanceManifest}
use optic.Records.InstanceRecord.{InstanceRecord}
use optic.Records.LlvmModuleRecord.{LlvmCollection}
use optic.Records.LlvmProvenance.{LlvmProvenance}
use optic.Records.Validation.{FilePath}
use optic.Store
use optic.Store.{StorePath, FileSystem}
use optic.Store.Candidate.{CandidatePointer, read_candidate}
use optic.Store.Effects.{Os, Run}
use optic.Store.Publish.{initialize, publish}
use optic.Compiler
use optic.Records.Error.{Error as RecordError}
use optic.Prelude.Text.{Text}
use optic.Compiler.Artifacts.{Tools}
use optic.Compiler.Collection.{CollectedBuild, into_manifest, collect}
use optic.Records.AnalysisToken.{AnalysisToken}
use optic.Compiler.Probe.{Freshness, fresh, stale, PreparedBuild, Terminal, probe}

pub data Error : Type 0 where
  compiler : Compiler.Error → Error
  invalid_record : RecordError → Error
  store : Store.Error → Error

-- `force` is `CapturePolicy::Fresh`.
pub data CapturePolicy : Type 0 where
  reuse force : CapturePolicy

pub data CaptureOutcome : Type 0 where
  captured reused : CaptureRecord CargoArtifactRecord → CaptureOutcome

-- What the build is given: the prepared build of the request, the processes that it runs, the new
-- token of a collection, and where the store finds a temporary directory.
pub record Cargo : Type 0 where
  pub prepare_build : Result Compiler.Error PreparedBuild
  pub orders : Orders
  pub path : FilePath
  pub owner : Text
  pub target : Target
  pub terminal : Terminal
  pub tools : Tools
  pub token : AnalysisToken
  pub place : FilePath → StorePath

-- How records are encoded and decoded.
pub record Json : Type 0 where
  pub decode_capture : List ℕ → Option (RawCaptureRecord CargoArtifactRecord)
  pub decode_manifest : List ℕ → Option RawInstanceManifest
  pub decode_pointer : List ℕ → Option CandidatePointer
  pub encode_capture : CaptureRecord CargoArtifactRecord → List (List ℕ)
  pub encode_manifest : InstanceManifest → List (List ℕ)
  pub encode_pointer : CandidatePointer → List (List ℕ)

unfoldable pub collect_with : Cargo → PreparedBuild → Result Compiler.Error CollectedBuild
unfolding collect
collect_with cargo prepared =
    collect cargo.orders cargo.path cargo.owner cargo.target cargo.terminal cargo.tools prepared
      cargo.token

abbrev pub Evidence : Type 0
Evidence = CaptureRecord CargoArtifactRecord × InstanceManifest

-- A capture to reuse, if there is one, and the build after the probe.
abbrev pub Reuse : Type 0
Reuse = Option (CaptureRecord CargoArtifactRecord) × PreparedBuild

module _ (cargo : Cargo) (json : Json) where
  abbrev pub verdict :
      CaptureRecord CargoArtifactRecord
      → Result Compiler.Error (Freshness × PreparedBuild)
      → Result Error Reuse
  verdict candidate (err e) = err (compiler e)
  verdict candidate (ok (fresh, prepared)) = ok (some candidate, prepared)
  verdict candidate (ok (stale, prepared)) = ok (none, prepared)

  abbrev pub found : PreparedBuild → Result Store.Error (Option Evidence) → Result Error Reuse
  found prepared (err e) = err (store e)
  found prepared (ok none) = ok (none, prepared)
  found prepared (ok (some (candidate, _))) = verdict candidate (
      probe cargo.orders cargo.path cargo.owner cargo.target cargo.terminal prepared
        candidate.analysis)

  -- The condition of the `if`.
  unfoldable pub try_reuse : CapturePolicy → PreparedBuild → FileSystem → Result Error Reuse
  unfolding read_candidate probe
  try_reuse force prepared fs = ok (none, prepared)
  try_reuse reuse prepared fs = found prepared (
      read_candidate fs json.decode_capture json.decode_manifest json.decode_pointer
        prepared.request_key)

  module _ {W : Type 0} (os : Os W) (id : CaptureId) (completed_at_unix_ms : ℕ) where
    -- What `capture` returns, with the run of the store behind it.
    abbrev pub Step : Type 0
    Step = Result Error CaptureOutcome × Run W

    abbrev pub published :
        CaptureRecord CargoArtifactRecord → Result Store.Error (Unit {0}) × Run W → Step
    published c (err e, run) = (err (store e), run)
    published c (ok _, run) = (ok (captured c), run)

    abbrev pub capture_of : CollectedBuild → CaptureRecord CargoArtifactRecord
    capture_of b = CaptureRecord.new id completed_at_unix_ms b.build b.compiler b.analysis

    abbrev pub save : CollectedBuild → Run W → Result Compiler.Error InstanceManifest → Step
    save b run (err e) = (err (compiler e), run)
    save b run (ok manifest) = published (capture_of b) (
        publish os json.encode_capture json.encode_manifest json.encode_pointer (capture_of b)
          manifest (cargo.place b.temporary) run)

    abbrev pub collected : Run W → Result Compiler.Error CollectedBuild → Step
    collected run (err e) = (err (compiler e), run)
    collected run (ok b) = save b run (into_manifest id b)

    abbrev pub decided : Run W → Result Error Reuse → Step
    decided run (err e) = (err e, run)
    decided run (ok (some candidate, _)) = (ok (reused candidate), run)
    decided run (ok (none, prepared)) = collected run (collect_with cargo prepared)

    abbrev pub initialized :
        CapturePolicy → PreparedBuild → Result Store.Error (Unit {0}) × Run W → Step
    initialized policy prepared (err e, run) = (err (store e), run)
    initialized policy prepared (ok _, run) =
        decided run (try_reuse policy prepared (os.observe run.world))

    abbrev pub prepared_as : CapturePolicy → Run W → Result Compiler.Error PreparedBuild → Step
    prepared_as policy run (err e) = (err (compiler e), run)
    prepared_as policy run (ok prepared) = initialized policy prepared (initialize os run)

    unfoldable pub capture : CapturePolicy → Run W → Step
    unfolding try_reuse into_manifest collect_with initialize publish
    capture policy run = prepared_as policy run cargo.prepare_build
