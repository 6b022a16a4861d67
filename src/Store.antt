-- ===== src/Store.antt =====
-- crates/cargo-optic-store/src: reading completed captures. lib.rs and error.rs are here, with what
-- the store uses of the file system; record_io.rs, captures.rs and artifacts.rs in child modules.
pub mod RecordIo
pub mod Captures
pub mod Copying
pub mod Laws
pub mod Candidate
pub mod Listing
pub mod Effects
pub mod Publish
use optic.Prelude.{ℕ, ◌*◌, Bool, true, false, String, List, [], ◌∷◌, ◌++◌, Result}
use optic.Prelude.Text.{Text, codes}
use optic.Records.Artifact.{ArtifactId}
use optic.Records.CaptureId.{CaptureId}

-- The components of a path below the workspace root.
abbrev pub StorePath : Type 0
StorePath = List Text

abbrev pub join : StorePath → Text → StorePath
join path name = path ++ name ∷ []

pub data IoError : Type 0 where
  not_found : IoError
  other : Text → IoError

pub data FileKind : Type 0 where
  file directory symlink special : FileKind

abbrev pub is_dir : FileKind → Bool
is_dir directory = true
is_dir _ = false

abbrev pub is_file : FileKind → Bool
is_file file = true
is_file _ = false

pub record Metadata : Type 0 where
  pub kind : FileKind
  pub len : ℕ

-- The calls of the file system that reading makes: `fs::symlink_metadata`; and `File::open`, which
-- gives a reader whose result depends on how many bytes it is to read at most.
pub record FileSystem : Type 0 where
  pub symlink_metadata : StorePath → Result IoError Metadata
  pub open_file : StorePath → Result IoError (ℕ → Result IoError (List ℕ))

pub data Error : Type 0 where
  write_evidence : IoError → Error
  unknown_artifact : CaptureId → ArtifactId → Error
  artifact_range : ArtifactId → ℕ → ℕ → ℕ → Error
  artifact_length : StorePath → ℕ → ℕ → Error
  conflicting_ignore_file : StorePath → Error
  unexpected_file_type : String → StorePath → Error
  record_too_large : StorePath → ℕ → ℕ → Error
  invalid_candidate : StorePath → Text → Text → Error
  workspace_root_not_absolute : Text → Error
  capture_exists capture_not_found : CaptureId → Error
  mismatched_published_capture_id : CaptureId → CaptureId → Error
  filesystem : String → StorePath → IoError → Error
  json expected_capture_directory expected_instance_file : StorePath → Error
  invalid_capture_directory_name invalid_capture_directory_id : StorePath → Text → Error
  mismatched_capture_id : StorePath → CaptureId → CaptureId → Error

abbrev pub max_header_bytes : ℕ
max_header_bytes = 1024 * 1024

abbrev pub max_instances_bytes : ℕ
max_instances_bytes = 128 * 1024 * 1024

abbrev pub optic_root : StorePath
optic_root = codes ".optic" ∷ []

abbrev pub root : StorePath
root = join optic_root (codes "store")

abbrev pub capture_file_name : Text
capture_file_name = codes "capture.json"

abbrev pub instances_file_name : Text
instances_file_name = codes "instances.json"
