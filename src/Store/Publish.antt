-- ===== src/Store/Publish.antt =====
-- crates/cargo-optic-store/src/publish.rs, with what it uses of initialize.rs, record_io.rs and
-- artifacts.rs: writing a capture. The operating system is the parameter `os`.
pub mod Sparing
pub mod Commit
pub mod Sizes
use optic.Prelude.{
  ℕ, zero, suc, ◌+◌, ◌-◌, min, Bool, true, false, not, List, [], ◌∷◌, ◌++◌, Result, ok, err, ensure,
  map_err, length, ltb, ◌==◌, if◌then◌else◌, String,
}
use optic.Prelude.Text.{Text, codes, text_beq}
use optic.Records.Artifact.{ArtifactRecord, file_name}
use optic.Records.CaptureId.{CaptureId, capture_id_eq}
use optic.Records.CaptureRecord.{CaptureRecord}
use optic.Records.InstanceManifest.{InstanceManifest}
use optic.Store.{
  StorePath, join, IoError, not_found, other, Metadata, is_dir, is_file, FileSystem, Error,
  filesystem, json, record_too_large, unexpected_file_type, conflicting_ignore_file, capture_exists,
  mismatched_published_capture_id, max_header_bytes, max_instances_bytes, optic_root, root,
  capture_file_name, instances_file_name,
}
use optic.Store.Effects.{
  Change, create_dir, create_file, flush, write, rename, Os, Run, Act, pure, fail, lift, ◌>>=◌,
  ◌>>◌, each, look, attempt,
}
use optic.Store.Captures.{directory_exists, validate_artifact_file, validate_artifacts}
use optic.Store.Candidate.{CandidatePointer, candidate_path}
use optic.Store.Candidate
use optic.Store.Copying.{copy_buffer_bytes}

module _ {W : Type 0} (os : Os W) where
  unfoldable pub create_directory : StorePath → Act W (Unit {0})
  create_directory path = do
    exists ← look os (λ fs. directory_exists fs path)
    if not exists then attempt os (filesystem "create" path) (create_dir path) else pure tt

  abbrev pub ignore : StorePath
  ignore = join optic_root (codes ".gitignore")

  abbrev pub ignore_bytes : List ℕ
  ignore_bytes = codes "*" ++ 10 ∷ []

  abbrev pub read_ignore : FileSystem → Result IoError (List ℕ)
  read_ignore fs = elim (fs.open_file ignore) [ ok reader ↦ reader 3 | err e ↦ err e ]

  -- The ignore file, with what its metadata is.
  unfoldable pub check_ignore : Result IoError Metadata → Act W (Unit {0})
  check_ignore (ok metadata) =
      if not (is_file metadata.kind)
      then fail (unexpected_file_type "file" ignore)
      else if not (metadata.len == 2)
      then fail (conflicting_ignore_file ignore)
      else (do
        bytes ← look os (λ fs. map_err (filesystem "read" ignore) (read_ignore fs))
        lift (ensure (text_beq bytes ignore_bytes) (conflicting_ignore_file ignore)))
  check_ignore (err not_found) = do
    attempt os (filesystem "create" ignore) (create_file ignore)
    attempt os (filesystem "write" ignore) (write ignore ignore_bytes)
  check_ignore (err (other text)) = fail (filesystem "read metadata for" ignore (other text))

  unfoldable pub initialize : Act W (Unit {0})
  initialize = do
    create_directory optic_root
    metadata ← look os (λ fs. ok (fs.symlink_metadata ignore))
    check_ignore metadata
    create_directory root
    each (λ name. create_directory (join root name))
        (codes "staging" ∷ codes "captures" ∷ codes "candidates" ∷ [])

  -- What the serializer writes, piece by piece, within what is left of the budget.
  unfoldable pub write_pieces : StorePath → ℕ → ℕ → List (List ℕ) → Act W ℕ
  write_pieces path limit remaining [] = pure remaining
  write_pieces path limit remaining (piece ∷ rest) =
      if ltb remaining (length piece) then fail (record_too_large path limit (limit + 1)) else (do
        attempt os (λ _. json path) (write path piece)
        write_pieces path limit (remaining - length piece) rest)

  unfoldable pub write_record : StorePath → List (List ℕ) → ℕ → Act W (Unit {0})
  write_record path pieces limit = do
    attempt os (filesystem "create" path) (create_file path)
    remaining ← write_pieces path limit limit pieces
    lift (ensure (not (remaining == 0)) (record_too_large path limit (limit + 1)))
    attempt os (filesystem "write" path) (write path (10 ∷ []))
    attempt os (filesystem "write" path) (flush path)

  -- The loop over the chunks of an artifact.
  unfoldable pub copy_artifact_bytes : ℕ → ℕ → StorePath → StorePath → ℕ → Act W (Unit {0})
  copy_artifact_bytes zero position source destination remaining = pure tt
  copy_artifact_bytes (suc fuel) position source destination remaining = elim (remaining == 0) [
    | true ↦ pure tt
    | false ↦ do
      let count = min remaining copy_buffer_bytes
      bytes ← λ run. (
        map_err (filesystem "read artifact" source) (os.read_exact run.world source position count),
        run,
      )
      attempt os (filesystem "write artifact" destination) (write destination bytes)
      copy_artifact_bytes fuel (position + count) source destination (remaining - count)
  ]

  unfoldable pub copy_artifact : StorePath → StorePath → ArtifactRecord → Act W (Unit {0})
  copy_artifact input staging artifact = do
    let source = join input (file_name artifact)
    let destination = join staging (file_name artifact)
    look os (λ fs. validate_artifact_file fs source artifact)
    _ ← look os (λ fs. map_err (filesystem "open artifact" source) (fs.open_file source))
    attempt os (filesystem "create artifact" destination) (create_file destination)
    copy_artifact_bytes artifact.byte_len 0 source destination artifact.byte_len
    look os (λ fs. validate_artifact_file fs source artifact)

  unfoldable pub copy_artifacts : StorePath → StorePath → InstanceManifest → Act W (Unit {0})
  copy_artifacts input staging manifest = do
    metadata ←
        look os
          (λ fs. map_err (filesystem "read artifact directory" input) (fs.symlink_metadata input))
    lift (ensure (is_dir metadata.kind) (unexpected_file_type "directory" input))
    each (copy_artifact input staging) manifest.artifacts
    look os (λ fs. validate_artifacts fs staging manifest)

  -- `capture_pieces`, `manifest_pieces` and `pointer_pieces` are what the serializer writes.
  unfoldable pub stage :
      StorePath
      → StorePath
      → InstanceManifest
      → List (List ℕ)
      → List (List ℕ)
      → List (List ℕ)
      → Act W (Unit {0})
  stage input staging instances capture_pieces manifest_pieces pointer_pieces = do
    attempt os (filesystem "create" staging) (create_dir staging)
    write_record (join staging capture_file_name) capture_pieces max_header_bytes
    write_record (join staging instances_file_name) manifest_pieces max_instances_bytes
    copy_artifacts input staging instances
    write_record (join staging (codes "candidate.json")) pointer_pieces max_header_bytes

  -- No capture is there yet.
  abbrev pub require_vacant :
      CaptureId → StorePath → Result IoError Metadata → Result Error (Unit {0})
  require_vacant id completed (ok metadata) = err (capture_exists id)
  require_vacant id completed (err not_found) = ok tt
  require_vacant id completed (err (other text)) =
      err (filesystem "read metadata for" completed (other text))

abbrev pub staging_of : CaptureId → StorePath
staging_of id = join (join root (codes "staging")) id.text

abbrev pub completed_of : CaptureId → StorePath
completed_of id = join (join root (codes "captures")) id.text

module _ {W A : Type 0} (os : Os W) (encode_capture : CaptureRecord A → List (List ℕ))
    (encode_manifest : InstanceManifest → List (List ℕ))
    (encode_pointer : CandidatePointer → List (List ℕ)) where
  -- What stands before the two renames.
  unfoldable pub prepare : CaptureRecord A → InstanceManifest → StorePath → Act W (Unit {0})
  prepare capture instances artifact_directory = do
    lift (
        ensure (capture_id_eq.beq capture.id instances.capture_id)
          (mismatched_published_capture_id capture.id instances.capture_id))
    initialize os
    look os (λ fs.
        require_vacant os capture.id (completed_of capture.id)
          (fs.symlink_metadata (completed_of capture.id)))
    stage os artifact_directory (staging_of capture.id) instances (encode_capture capture)
        (encode_manifest instances) (encode_pointer (Candidate.new capture))

  unfoldable pub publish : CaptureRecord A → InstanceManifest → StorePath → Act W (Unit {0})
  publish capture instances artifact_directory = do
    let pointer = candidate_path capture.analysis.request_key
    prepare capture instances artifact_directory
    attempt os (filesystem "replace candidate" pointer)
        (rename (join (staging_of capture.id) (codes "candidate.json")) pointer)
    attempt os (filesystem "publish" (completed_of capture.id))
        (rename (staging_of capture.id) (completed_of capture.id))
