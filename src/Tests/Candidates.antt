-- ===== src/Tests/Candidates.antt =====
-- The small capture, found by its request and in the list.
use optic.Prelude.{
  ℕ, none, some, Option, List, [], ◌∷◌, ◌≡◌, refl, Result, ok, take, if◌then◌else◌, list_beq,
  contains, first_duplicate,
}
use optic.Prelude.Text.{codes, text_beq}
use optic.Records.Artifact.{file_name, hex_onto}
use optic.Records.CaptureId
use optic.Records.CaptureRecord
use optic.Records.CaptureRecord.{CaptureRecord}
use optic.Records.ByteRange
use optic.Records.Collection.{validate_llvm, check_module, check_modules, validate_artifact_range}
use optic.Records.Identity.{list_text_eq}
use optic.Records.InstanceManifest
use optic.Records.InstanceManifest.{InstanceManifest, check_artifacts, check_instances}
use optic.Store.{StorePath, join, IoError, file, directory, FileSystem, root}
use optic.Store.RecordIo.{from_slice, read_bounded_record, read_record}
use optic.Store.Captures.{
  directory_exists, all_exist, namespace_exists, capture_directory, require_instances_file,
  validate_artifact_file, validate_artifacts, validate_capture_scope, read_capture_from_directory,
  read_capture, read_instances,
}
use optic.Store.Candidate.{
  CandidatePointer, new, candidate_path, check_pointer, check_capture, read_evidence,
  read_candidate,
}
use optic.Store.Candidate.Agreement.{candidate_agrees}
use optic.Store.Listing.{DirEntry}
use optic.Tests.Data.{capture, manifest}
use optic.Tests.Store.{
  build, compiler, decode_capture, decode_manifest, metadata_in, entries, open_in,
}

abbrev pub found : CaptureRecord (Unit {0})
found = CaptureRecord.new capture 5 build compiler (record {
  request_key = record { text = codes "key" };
  token = record { text = codes "token" };
  artifact = tt;
})

abbrev pub pointer_path : StorePath
pointer_path = join (join root (codes "candidates")) (codes "key.json")

abbrev pub disk : FileSystem
disk = record {
  symlink_metadata = metadata_in (
      (join root (codes "candidates"), record { kind = directory; len = 0 })
      ∷ (pointer_path, record { kind = file; len = 1 })
      ∷ entries);
  open_file = λ path.
      if list_text_eq.beq path pointer_path then ok (λ n. ok (take n (3 ∷ []))) else open_in path;
}

abbrev pub decode_pointer : List ℕ → Option CandidatePointer
decode_pointer bytes = if text_beq bytes (3 ∷ []) then some (new found) else none

candidate_read :
    read_candidate disk decode_capture decode_manifest decode_pointer
      (record { text = codes "key" })
    ≡ ok (some (found, manifest))
unfolding read_candidate new candidate_path check_pointer read_evidence check_capture
    capture_directory namespace_exists all_exist directory_exists read_capture_from_directory
    require_instances_file read_record read_bounded_record from_slice validate_capture_scope
    validate_artifacts validate_artifact_file file_name hex_onto list_beq text_beq
    CaptureRecord.try_from InstanceManifest.try_from InstanceManifest.new check_artifacts
    check_instances validate_llvm check_module check_modules validate_artifact_range ByteRange.new
    ByteRange.end first_duplicate contains
candidate_read = refl

candidate_agrees_example :
    (found.analysis.request_key ≡ found.analysis.request_key)
    × (read_capture disk decode_capture decode_manifest capture ≡ ok found)
    × (read_instances disk decode_capture decode_manifest capture ≡ ok manifest)
candidate_agrees_example =
    candidate_agrees disk decode_capture decode_manifest decode_pointer
      (record { text = codes "key" }) found manifest candidate_read

abbrev read_dir : StorePath → Result IoError (List (Result IoError DirEntry))
read_dir path = ok (ok (record { name = capture.text; file_type = ok directory }) ∷ [])
