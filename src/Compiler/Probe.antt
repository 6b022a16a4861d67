-- ===== src/Compiler/Probe.antt =====
-- crates/cargo-optic-compiler/src/prepared.rs: the receipt of a stopped probe, and what a probe of a
-- candidate concludes. The file system of the attempt and Cargo's process are parameters.
pub mod Conclusion
pub mod Evidence
pub mod Verdicts
use optic.Prelude.{
  ℕ, String, Bool, true, false, not, ◌&&◌, ◌||◌, Option, none, some, List, [], ◌∷◌, ◌++◌, Result,
  ok, err, ◌>>=◌, ◌>>◌, ensure, map_err, length, is_empty, ◌==◌, if◌then◌else◌,
}
use optic.Prelude.Text.{Text, text_beq, codes}
use optic.Records.AnalysisToken.{AnalysisToken}
use optic.Records.BuildRecord.{BuildRecord}
use optic.Records.CompilerIdentity.{CompilerIdentity}
use optic.Records.CaptureKey.{CaptureKey, capture_key_eq}
use optic.Records.CaptureRecord.{CaptureAnalysis}
use optic.Records.CargoArtifactRecord.{Target, CargoArtifactRecord, Orders}
use optic.Records.Validation.{FilePath}
use optic.Store.{IoError, not_found, other, Metadata, is_file}
use optic.Compiler.{
  Error, Message, compiler_environment, filesystem, process_failed, panicked, plain,
}
use optic.Compiler.Protocol.{header}
use optic.Compiler.Attempt.{
  Files, CargoProcess, Stderr, CargoAttempt, relay_warnings, replay, run, failure,
}
use optic.Compiler.Observation.{CargoObservation, artifact_beq, completed}

pub data Freshness : Type 0 where
  fresh stale : Freshness

abbrev pub stale_path : FilePath
stale_path = codes "stale"

abbrev pub manifest_path : FilePath
manifest_path = codes "manifest"

unfoldable pub selected_target_marker : AnalysisToken → Text
selected_target_marker token =
    codes "--cfg=cargo_optic_selected_target=" ++ (34 ∷ (token.text ++ 34 ∷ []))

abbrev pub environment : {A : Type 0} → String → Result Error A
environment message = err (compiler_environment (plain message))

abbrev pub require : Bool → String → Result Error (Unit {0})
require test message = ensure test (compiler_environment (plain message))

-- `protocol::header`
abbrev pub header_of : Text → Result Error (List ℕ)
header_of marker = elim (header marker) [
  | none ↦ err (panicked "the marker is a fixed-length analysis token")
  | some bytes ↦ ok bytes
]

-- A receipt that is there: a regular file with exactly the header.
unfoldable pub check_receipt : Files → FilePath → Metadata → List ℕ → Result Error Bool
unfolding text_beq
check_receipt files path metadata expected = do
  require (is_file metadata.kind && metadata.len == length expected)
      "stale receipt must contain exactly this attempt's header"
  actual ← map_err (filesystem "read stale receipt" path) (files.read path)
  require (text_beq actual expected) "stale receipt must match this analysis token and protocol"
  ok true

abbrev pub receipt_in : Files → FilePath → Text → Result IoError Metadata → Result Error Bool
receipt_in files path marker (err not_found) = ok false
receipt_in files path marker (err (other e)) =
    err (filesystem "inspect stale receipt" path (other e))
receipt_in files path marker (ok metadata) = do
  expected ← header_of marker
  check_receipt files path metadata expected

unfoldable pub verified_stale_receipt : Files → FilePath → Text → Result Error Bool
unfolding check_receipt header
verified_stale_receipt files path marker =
    receipt_in files path marker (files.symlink_metadata path)

module _ (orders : Orders) (cargo : FilePath) (target : Target) where
  -- The end of `classify_probe`, where Cargo has succeeded.
  unfoldable pub classify_success :
      CargoAttempt → CargoArtifactRecord → Bool → Result Error Freshness
  unfolding completed artifact_beq
  classify_success attempt candidate is_stale = do
    require (not is_stale) "successful probe requires no stale receipt"
    record_ ← completed orders target true attempt.observation
    require (artifact_beq record_.artifact candidate.artifact)
        "fresh selected artifact must match the stored observation"
    ok fresh

  -- Where Cargo has failed.
  abbrev pub classify_failure : CargoAttempt → Bool → Result Error Freshness
  classify_failure attempt is_stale =
      if is_stale && is_empty attempt.observation.selected then ok stale else failure cargo attempt

  unfoldable pub classify_probe : CargoAttempt → CargoArtifactRecord → Text → Result Error Freshness
  unfolding verified_stale_receipt classify_success
  classify_probe attempt candidate marker = do
    is_stale ← verified_stale_receipt attempt.files stale_path marker
    has_manifest ←
        map_err (filesystem "inspect probe manifest" manifest_path)
          (attempt.files.try_exists manifest_path)
    require (not has_manifest) "probe requires no selected analysis manifest"
    if attempt.success
        then classify_success attempt candidate is_stale
        else classify_failure attempt is_stale

-- What probing and collection read of a prepared build, and the state that probing changes. The
-- rest is in what starts Cargo.
pub record PreparedBuild : Type 0 where
  pub build : BuildRecord
  pub compiler : CompilerIdentity
  pub request_key : CaptureKey
  pub stopped_probe : Option CargoAttempt

-- The commands for a marker in a mode, each in a new directory, and the standard error.
pub record Terminal : Type 0 where
  pub command : Text → Text → Result Error CargoProcess
  pub stderr : Stderr

abbrev is_none {ℓ} : {A : Type ℓ} → Option A → Bool
is_none none = true
is_none (some _) = false

module _ (orders : Orders) (cargo : FilePath) (owner : Text) (target : Target)
    (terminal : Terminal) where
  -- The `match result` of `probe`.
  unfoldable pub conclude :
      PreparedBuild
      → CargoAttempt
      → Result Error Freshness
      → Result Error (Freshness × PreparedBuild)
  unfolding relay_warnings replay
  conclude prepared attempt (ok stale) = do
    relayed ← relay_warnings terminal.stderr attempt
    ok (stale, record prepared { stopped_probe = some relayed })
  conclude prepared attempt (ok fresh) = do _ ← replay terminal.stderr attempt; ok (fresh, prepared)
  conclude prepared attempt (err e) = do _ ← replay terminal.stderr attempt; err e

  unfoldable pub probe :
      PreparedBuild → CaptureAnalysis CargoArtifactRecord → Result Error (Freshness × PreparedBuild)
  unfolding selected_target_marker run classify_probe conclude
  probe prepared candidate = do
    require (capture_key_eq.beq candidate.request_key prepared.request_key)
        "candidate request key must match the prepared request"
    require (is_none prepared.stopped_probe) "a stopped probe requires collection"
    let marker = selected_target_marker candidate.token
    process ← terminal.command marker (codes "probe")
    attempt ← run terminal.stderr orders cargo owner target process
    conclude prepared attempt (classify_probe orders cargo target attempt candidate.artifact marker)
