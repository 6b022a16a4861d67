-- ===== src/Records/SourceRecord.antt =====
-- crates/cargo-optic-records/src/source.rs
use optic.Prelude.{ℕ, not, ok, ◌>>◌, ensure, ◌==◌}
use optic.Prelude.Text.{text_eq}
use optic.Records.Error.{Checked, invalid_field, zero_line}
use optic.Records.Validation.{FilePath, require_path}
use optic.Records.Artifact.{ArtifactId}
use optic.Records.ByteRange.{ByteRange}

pub record SourceRecord : Type 0 where
  pub artifact : ArtifactId
  pub range : ByteRange
  pub display_path : FilePath
  pub starting_line : ℕ

unfoldable pub new : ArtifactId → ByteRange → FilePath → ℕ → Checked SourceRecord
new artifact range display_path starting_line = do
  require_path "source display path" display_path
  ensure (not (starting_line == 0)) (invalid_field "source starting line" zero_line)
  ok (record {
    artifact = artifact;
    range = range;
    display_path = display_path;
    starting_line = starting_line;
  })

pub record RawSourceRecord : Type 0 where
  pub artifact : ArtifactId
  pub range : ByteRange
  pub display_path : FilePath
  pub starting_line : ℕ

unfoldable pub try_from : RawSourceRecord → Checked SourceRecord
unfolding new
try_from raw = new raw.artifact raw.range raw.display_path raw.starting_line

pub data SourceUnavailable : Type 0 where
  nonlocal unloaded generated unsupported_span outside_package : SourceUnavailable

pub data SourceAvailability : Type 0 where
  available : SourceRecord → SourceAvailability
  unavailable : SourceUnavailable → SourceAvailability
