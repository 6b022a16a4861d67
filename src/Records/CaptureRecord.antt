-- ===== src/Records/CaptureRecord.antt =====
-- crates/cargo-optic-records/src/capture_record.rs and capture_analysis.rs, over the type `A` of
-- the normalized Cargo artifact.
use optic.Prelude.{ℕ, Option, ok, ◌>>=◌, ◌>>◌, ensure, ok_or, ◌==◌}
use optic.Records.AnalysisToken.{AnalysisToken}
use optic.Records.BuildRecord.{BuildRecord}
use optic.Records.CaptureId.{CaptureId}
use optic.Records.CaptureKey.{CaptureKey}
use optic.Records.CompilerIdentity.{CompilerIdentity}
use optic.Records.Error.{Checked, unsupported_format, invalid_field, no_value}
use optic.Records.InstanceManifest.{capture_format_version}

pub record CaptureAnalysis (A : Type 0) : Type 0 where
  pub request_key : CaptureKey
  pub token : AnalysisToken
  pub artifact : A

pub record CaptureRecord (A : Type 0) : Type 0 where
  pub format_version : ℕ
  pub id : CaptureId
  pub completed_at_unix_ms : ℕ
  pub build : BuildRecord
  pub compiler : CompilerIdentity
  pub analysis : CaptureAnalysis A

pub record RawCaptureRecord (A : Type 0) : Type 0 where
  pub format_version : ℕ
  pub id : CaptureId
  pub completed_at_unix_ms : ℕ
  pub build : BuildRecord
  pub compiler : Option CompilerIdentity
  pub analysis : Option (CaptureAnalysis A)

module _ {A : Type 0} where
  abbrev pub new :
      CaptureId → ℕ → BuildRecord → CompilerIdentity → CaptureAnalysis A → CaptureRecord A
  new id completed_at_unix_ms build compiler analysis = record {
    format_version = capture_format_version;
    id = id;
    completed_at_unix_ms = completed_at_unix_ms;
    build = build;
    compiler = compiler;
    analysis = analysis;
  }

  unfoldable pub try_from : RawCaptureRecord A → Checked (CaptureRecord A)
  try_from raw = do
    ensure (raw.format_version == capture_format_version)
        (unsupported_format capture_format_version raw.format_version)
    compiler ← ok_or raw.compiler (invalid_field "compiler" no_value)
    analysis ← ok_or raw.analysis (invalid_field "analysis" no_value)
    ok (new raw.id raw.completed_at_unix_ms raw.build compiler analysis)
