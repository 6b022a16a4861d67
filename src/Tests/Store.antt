-- ===== src/Tests/Store.antt =====
-- A workspace that holds the small capture, read through the store.
use optic.Prelude.{
  ℕ, true, none, some, Option, List, [], ◌∷◌, ◌++◌, ◌↔◌, ◌≡◌, ◌≤◌, refl, Result, ok, err, All,
  length, take, if◌then◌else◌, list_beq, contains, first_duplicate,
}
use optic.Prelude.Text.{codes, text_beq}
use optic.Records.Artifact.{ArtifactRecord, file_name, hex_onto}
use optic.Records.BuildRecord.{BuildRecord}
use optic.Records.CaptureRecord
use optic.Records.CaptureRecord.{CaptureRecord, RawCaptureRecord}
use optic.Records.ByteRange
use optic.Records.Collection.{validate_llvm, check_module, check_modules, validate_artifact_range}
use optic.Records.CompilerIdentity.{CompilerIdentity}
use optic.Records.Identity.{list_text_eq}
use optic.Records.InstanceManifest
use optic.Records.InstanceManifest.{RawInstanceManifest, check_artifacts, check_instances}
use optic.Records.InstanceManifest.Valid.{IsManifest, raw_of}
use optic.Records.TargetRecord.{bin}
use optic.Store.{
  StorePath, join, IoError, not_found, file, directory, is_file, Metadata, FileSystem,
  max_instances_bytes, optic_root, root, capture_file_name, instances_file_name,
}
use optic.Store.RecordIo.{from_slice, read_bounded_record, read_record}
use optic.Store.RecordIo.Budget.{Decodes, read_record_iff}
use optic.Store.Captures.{
  directory_exists, all_exist, namespace_exists, capture_directory, require_instances_file,
  validate_artifact_file, validate_artifacts, validate_capture_scope, read_capture_from_directory,
  read_instances,
}
use optic.Store.Copying.{copy_evidence_bytes, read_bytes, append_bytes, copy_evidence_bytes_iff}
use optic.Store.Laws.{IsFile, read_instances_sound}
use optic.Tests.Data.{capture, manifest, artifacts}

abbrev pub build : BuildRecord
build = record {
  package_name = codes "app";
  package_version = codes "0.1.0";
  target = record { name = codes "app"; kind = bin };
  profile = codes "release";
  cargo_program = codes "/bin/cargo";
  invocation_directory = codes "/src";
  cargo_arguments = codes "build" ∷ [];
}

abbrev pub compiler : CompilerIdentity
compiler = record {
  rustc = codes "/bin/rustc";
  release = codes "1.90.0";
  commit_hash = codes "abc";
  host = codes "x86_64-unknown-linux-gnu";
  sysroot = codes "/lib";
}

abbrev pub header : RawCaptureRecord (Unit {0})
header = record {
  format_version = 4;
  id = capture;
  completed_at_unix_ms = 5;
  build = build;
  compiler = some compiler;
  analysis = some (record {
    request_key = record { text = codes "key" };
    token = record { text = codes "token" };
    artifact = tt;
  });
}

-- One byte stands for each record's encoding.
abbrev pub decode_capture : List ℕ → Option (RawCaptureRecord (Unit {0}))
decode_capture bytes = if text_beq bytes (1 ∷ []) then some header else none

abbrev pub decode_manifest : List ℕ → Option RawInstanceManifest
decode_manifest bytes = if text_beq bytes (2 ∷ []) then some (raw_of manifest) else none

abbrev pub captures : StorePath
captures = join root (codes "captures")

abbrev pub home : StorePath
home = join captures capture.text

-- The files, with their lengths; the rest are directories or missing.
abbrev pub metadata_in : List (StorePath × Metadata) → StorePath → Result IoError Metadata
metadata_in [] path = err not_found
metadata_in ((known, metadata) ∷ rest) path =
    if list_text_eq.beq known path then ok metadata else metadata_in rest path

abbrev pub entries : List (StorePath × Metadata)
entries =
    (optic_root, record { kind = directory; len = 0 })
    ∷ (root, record { kind = directory; len = 0 })
    ∷ (captures, record { kind = directory; len = 0 })
    ∷ (home, record { kind = directory; len = 0 })
    ∷ (join home capture_file_name, record { kind = file; len = 1 })
    ∷ (join home instances_file_name, record { kind = file; len = 1 })
    ∷ (join home (codes "artifact-0000000000000000"), record { kind = file; len = 10 })
    ∷ (join home (codes "artifact-0000000000000001"), record { kind = file; len = 100 })
    ∷ []

abbrev pub open_in : StorePath → Result IoError (ℕ → Result IoError (List ℕ))
open_in path =
    if list_text_eq.beq path (join home capture_file_name)
    then ok (λ n. ok (take n (1 ∷ [])))
    else ok (λ n. ok (take n (2 ∷ [])))

abbrev disk : FileSystem
disk = record { symlink_metadata = metadata_in entries; open_file = open_in }

manifest_read : read_instances disk decode_capture decode_manifest capture ≡ ok manifest
unfolding read_instances capture_directory namespace_exists all_exist directory_exists
    read_capture_from_directory require_instances_file read_record read_bounded_record from_slice
    validate_capture_scope validate_artifacts validate_artifact_file file_name hex_onto list_beq
    text_beq CaptureRecord.try_from InstanceManifest.try_from InstanceManifest.new check_artifacts
    check_instances validate_llvm check_module check_modules validate_artifact_range ByteRange.new
    ByteRange.end first_duplicate contains
manifest_read = refl

read_instances_sound_example :
    (directory : StorePath) × (header : CaptureRecord (Unit {0})) × (bytes : List ℕ)
    × (capture_directory disk capture ≡ ok directory)
    × (read_capture_from_directory disk decode_capture decode_manifest directory capture
        ≡ ok header)
    × (length bytes ≤ max_instances_bytes)
    × (decode_manifest bytes ≡ some (raw_of manifest))
    × IsManifest manifest
    × (capture ≡ capture)
    × All (λ (a : ArtifactRecord). IsFile disk (join directory (file_name a)) a.byte_len) artifacts
read_instances_sound_example =
    read_instances_sound disk (Unit {0}) decode_capture decode_manifest capture manifest
      manifest_read

record_read :
    read_record decode_manifest InstanceManifest.try_from disk (join home instances_file_name) 1
    ≡ ok manifest
unfolding read_record read_bounded_record from_slice list_beq text_beq InstanceManifest.try_from
    InstanceManifest.new check_artifacts check_instances validate_llvm check_module check_modules
    validate_artifact_range ByteRange.new ByteRange.end first_duplicate contains
record_read = refl

-- The encoding of the manifest at every path.
abbrev everywhere : FileSystem
everywhere = record {
  symlink_metadata = λ path. ok (record { kind = file; len = 1 });
  open_file = λ path. ok (λ n. ok (take n (2 ∷ [])));
}

read_record_iff_example :
    (read_record decode_manifest InstanceManifest.try_from everywhere home 1 ≡ ok manifest) ↔ (
      (is_file file ≡ true)
      × (1 ≤ 1)
      × Decodes decode_manifest InstanceManifest.try_from home 1 (2 ∷ []) manifest)
read_record_iff_example =
    read_record_iff decode_manifest InstanceManifest.try_from home 1 (2 ∷ []) manifest everywhere
      (record { kind = file; len = 1 }) (λ n. ok (take n (2 ∷ []))) refl refl (λ n. refl)

abbrev copied : List ℕ
copied = 9 ∷ 1 ∷ 2 ∷ []

copy_evidence_bytes_iff_example :
    (copy_evidence_bytes read_bytes append_bytes [] 2 (1 ∷ 2 ∷ 3 ∷ []) (9 ∷ [])
      ≡ ok (9 ∷ 1 ∷ 2 ∷ []))
    ↔ ((2 ≤ length {A = ℕ} (1 ∷ 2 ∷ 3 ∷ [])) × (copied ≡ (9 ∷ []) ++ take 2 (1 ∷ 2 ∷ 3 ∷ [])))
copy_evidence_bytes_iff_example = copy_evidence_bytes_iff [] 2 (1 ∷ 2 ∷ 3 ∷ []) (9 ∷ []) copied
