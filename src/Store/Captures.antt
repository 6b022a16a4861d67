-- ===== src/Store/Captures.antt =====
-- crates/cargo-optic-store/src/captures.rs, the checks of artifact files in artifacts.rs, and
-- `namespace_exists` of initialize.rs.
use optic.Prelude.{
  ℕ, Bool, true, false, not, Option, List, [], ◌∷◌, Result, ok, err, ◌>>=◌, ◌>>◌, ensure, map_err,
  for_each, ◌==◌, if◌then◌else◌,
}
use optic.Prelude.Text.{Text, codes}
use optic.Records.Artifact.{ArtifactRecord, file_name}
use optic.Records.CaptureId.{CaptureId, capture_id_eq}
use optic.Records.CaptureRecord
use optic.Records.CaptureRecord.{CaptureRecord, RawCaptureRecord}
use optic.Records.InstanceManifest
use optic.Records.InstanceManifest.{InstanceManifest, RawInstanceManifest}
use optic.Store.{
  StorePath, join, IoError, not_found, other, is_dir, is_file, Metadata, FileSystem, Error,
  artifact_length, unexpected_file_type, capture_not_found, filesystem, expected_capture_directory,
  expected_instance_file, mismatched_capture_id, max_header_bytes, max_instances_bytes, optic_root,
  root, capture_file_name, instances_file_name,
}
use optic.Store.RecordIo.{read_record}

-- The three outcomes of a metadata call that the source tells apart.
abbrev pub directory_at : {B : Type 0} → Result IoError Metadata → B → B → (IoError → B) → B → B
directory_at (ok metadata) present missing failed wrong_kind =
    if is_dir metadata.kind then present else wrong_kind
directory_at (err not_found) present missing failed wrong_kind = missing
directory_at (err (other text)) present missing failed wrong_kind = failed (other text)

module _ (fs : FileSystem) where
  unfoldable pub directory_exists : StorePath → Result Error Bool
  directory_exists path =
      directory_at (fs.symlink_metadata path) (ok true) (ok false)
        (λ e. err (filesystem "read metadata for" path e))
        (err (unexpected_file_type "directory" path))

  -- The loop over the ancestors, which stops at the first that is missing.
  unfoldable pub all_exist : List StorePath → Result Error Bool
  unfolding directory_exists
  all_exist [] = ok true
  all_exist (path ∷ rest) = do
    exists ← directory_exists path
    if not exists then ok false else all_exist rest

  unfoldable pub namespace_exists : Text → Result Error Bool
  unfolding all_exist
  namespace_exists namespace = all_exist (optic_root ∷ root ∷ join root namespace ∷ [])

  unfoldable pub capture_directory : CaptureId → Result Error StorePath
  unfolding namespace_exists
  capture_directory id = do
    exists ← namespace_exists (codes "captures")
    if not exists then err (capture_not_found id) else do
      let directory = join (join root (codes "captures")) id.text
      directory_at (fs.symlink_metadata directory) (ok directory) (err (capture_not_found id))
          (λ e. err (filesystem "read metadata for" directory e))
          (err (expected_capture_directory directory))

  unfoldable pub require_instances_file : StorePath → Result Error StorePath
  require_instances_file directory = do
    let path = join directory instances_file_name
    metadata ← map_err (filesystem "read metadata for" path) (fs.symlink_metadata path)
    ensure (is_file metadata.kind) (expected_instance_file path)
    ok path

  unfoldable pub validate_artifact_file : StorePath → ArtifactRecord → Result Error (Unit {0})
  validate_artifact_file path artifact = do
    metadata ← map_err (filesystem "read artifact metadata" path) (fs.symlink_metadata path)
    ensure (is_file metadata.kind) (unexpected_file_type "file" path)
    ensure (metadata.len == artifact.byte_len) (artifact_length path artifact.byte_len metadata.len)

  unfoldable pub validate_artifacts : StorePath → InstanceManifest → Result Error (Unit {0})
  unfolding validate_artifact_file file_name
  validate_artifacts directory manifest =
      for_each (λ artifact. validate_artifact_file (join directory (file_name artifact)) artifact)
        manifest.artifacts

unfoldable pub validate_capture_scope : StorePath → CaptureId → CaptureId → Result Error (Unit {0})
validate_capture_scope path directory_id record_id =
    ensure (capture_id_eq.beq record_id directory_id)
      (mismatched_capture_id path directory_id record_id)

module _ (fs : FileSystem) {A : Type 0} (decode_capture : List ℕ → Option (RawCaptureRecord A))
    (decode_manifest : List ℕ → Option RawInstanceManifest) where
  unfoldable pub read_capture_from_directory :
      StorePath → CaptureId → Result Error (CaptureRecord A)
  unfolding read_record validate_capture_scope
  read_capture_from_directory directory directory_id = do
    let path = join directory capture_file_name
    capture ← read_record decode_capture CaptureRecord.try_from fs path max_header_bytes
    validate_capture_scope path directory_id capture.id
    ok capture

  unfoldable pub read_capture : CaptureId → Result Error (CaptureRecord A)
  unfolding capture_directory read_capture_from_directory require_instances_file
  read_capture id = do
    directory ← capture_directory fs id
    capture ← read_capture_from_directory directory id
    _ ← require_instances_file fs directory
    ok capture

  unfoldable pub read_instances : CaptureId → Result Error InstanceManifest
  unfolding capture_directory read_capture_from_directory require_instances_file read_record
      validate_capture_scope validate_artifacts
  read_instances id = do
    directory ← capture_directory fs id
    _ ← read_capture_from_directory directory id
    path ← require_instances_file fs directory
    instances ← read_record decode_manifest InstanceManifest.try_from fs path max_instances_bytes
    validate_capture_scope path id instances.capture_id
    validate_artifacts fs directory instances
    ok instances
