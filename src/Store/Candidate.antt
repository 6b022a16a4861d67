-- ===== src/Store/Candidate.antt =====
-- crates/cargo-optic-store/src/candidate.rs: the capture that a request's pointer names.
-- `decode_pointer` is `serde_json::from_slice` into the pointer.
pub mod Agreement
use optic.Prelude.{
  ℕ, Bool, true, false, not, Option, none, some, List, [], ◌∷◌, ◌++◌, Result, ok, err, ◌>>=◌, ◌>>◌,
  ensure, ◌==◌, if◌then◌else◌,
}
use optic.Prelude.Text.{Text, codes}
use optic.Records.AnalysisToken.{AnalysisToken, analysis_token_eq}
use optic.Records.CaptureId.{CaptureId}
use optic.Records.CaptureKey.{CaptureKey, capture_key_eq}
use optic.Records.CaptureRecord.{CaptureRecord, RawCaptureRecord}
use optic.Records.Decimal.{display}
use optic.Records.InstanceManifest
use optic.Records.InstanceManifest.{InstanceManifest, RawInstanceManifest}
use optic.Store.{
  StorePath, join, IoError, not_found, FileSystem, Error, filesystem, capture_not_found,
  invalid_candidate, max_header_bytes, max_instances_bytes, root, instances_file_name,
}
use optic.Store.RecordIo.{read_record}
use optic.Store.Captures.{
  namespace_exists, capture_directory, read_capture_from_directory, validate_capture_scope,
  validate_artifacts,
}

pub record CandidatePointer : Type 0 where
  pub format_version : ℕ
  pub request_key : CaptureKey
  pub token : AnalysisToken
  pub capture_id : CaptureId

abbrev pub pointer_format_version : ℕ
pointer_format_version = 1

unfoldable pub new : {A : Type 0} → CaptureRecord A → CandidatePointer
new capture = record {
  format_version = pointer_format_version;
  request_key = capture.analysis.request_key;
  token = capture.analysis.token;
  capture_id = capture.id;
}

unfoldable pub candidate_path : CaptureKey → StorePath
candidate_path key = join (join root (codes "candidates")) (key.text ++ codes ".json")

abbrev pub is_absent : Error → Bool
is_absent (filesystem operation path not_found) = true
is_absent _ = false

abbrev pub is_unknown_capture : Error → Bool
is_unknown_capture (capture_not_found id) = true
is_unknown_capture _ = false

-- Some errors are misses.
abbrev pub or_miss :
    {A B : Type 0}
    → (Error → Bool)
    → Result Error A
    → (A → Result Error (Option B))
    → Result Error (Option B)
or_miss misses (ok a) next = next a
or_miss misses (err e) next = if misses e then ok none else err e

abbrev pub format_name : ℕ → Text
format_name version = codes "pointer format " ++ display version

-- The pointer itself.
unfoldable pub check_pointer : CaptureKey → CandidatePointer → Result Error (Unit {0})
check_pointer key pointer = do
  ensure (pointer.format_version == pointer_format_version) (
      invalid_candidate (candidate_path key) (format_name pointer_format_version)
        (format_name pointer.format_version))
  ensure (capture_key_eq.beq pointer.request_key key)
      (invalid_candidate (candidate_path key) key.text pointer.request_key.text)

-- The capture that it names.
unfoldable pub check_capture :
    {A : Type 0} → CaptureKey → CandidatePointer → CaptureRecord A → Result Error (Unit {0})
check_capture key pointer capture = do
  ensure (capture_key_eq.beq capture.analysis.request_key key)
      (invalid_candidate (candidate_path key) key.text capture.analysis.request_key.text)
  ensure (analysis_token_eq.beq capture.analysis.token pointer.token)
      (invalid_candidate (candidate_path key) pointer.token.text capture.analysis.token.text)

module _ (fs : FileSystem) {A : Type 0} (decode_capture : List ℕ → Option (RawCaptureRecord A))
    (decode_manifest : List ℕ → Option RawInstanceManifest)
    (decode_pointer : List ℕ → Option CandidatePointer) where
  abbrev pub read_pointer : StorePath → Result Error CandidatePointer
  read_pointer path = read_record decode_pointer (λ pointer. ok pointer) fs path max_header_bytes

  -- With the directory of the capture.
  unfoldable pub read_evidence :
      CaptureKey → CandidatePointer → StorePath → Result Error (CaptureRecord A × InstanceManifest)
  read_evidence key pointer directory = do
    let path = join directory instances_file_name
    capture ←
        read_capture_from_directory fs decode_capture decode_manifest directory pointer.capture_id
    check_capture key pointer capture
    instances ← read_record decode_manifest InstanceManifest.try_from fs path max_instances_bytes
    validate_capture_scope path capture.id instances.capture_id
    validate_artifacts fs directory instances
    ok (capture, instances)

  unfoldable pub read_candidate :
      CaptureKey → Result Error (Option (CaptureRecord A × InstanceManifest))
  read_candidate key = do
    exists ← namespace_exists fs (codes "candidates")
    if not exists
        then ok none
        else (or_miss is_absent (read_pointer (candidate_path key)) λ pointer. do
          check_pointer key pointer
          or_miss is_unknown_capture (capture_directory fs pointer.capture_id)
              λ directory. do evidence ← read_evidence key pointer directory; ok (some evidence))
