-- ===== src/Store/Laws.antt =====
-- What reading a completed capture establishes, and the interface of the queries that it fills.
use optic.Prelude.{
  ℕ, true, Option, some, List, ◌≡◌, ◌≤◌, ◌↔◌, ◌∙◌, refl, ap, arith, Result, ok, err, ◌>>=◌, ◌>>◌,
  >>=-ok, ok-inj, subst, ensure, map_err, map_err-ok, All, All-imp, Passes, for_each_iff, length,
  ==_iff,
}
use optic.Records.Artifact.{ArtifactRecord, file_name}
use optic.Records.CaptureId.{CaptureId, capture_id_eq}
use optic.Records.CaptureRecord
use optic.Records.CaptureRecord.{CaptureRecord, RawCaptureRecord}
use optic.Records.InstanceManifest
use optic.Records.InstanceManifest.{InstanceManifest, RawInstanceManifest}
use optic.Records.InstanceManifest.Valid.{IsManifest, raw_of, try_from_iff}
use optic.Store.{
  capture_file_name, max_header_bytes, StorePath, join, is_file, Metadata, FileSystem, Error,
  filesystem, unexpected_file_type, max_instances_bytes,
}
use optic.Store.RecordIo.{read_record, read_record_sound}
use optic.Store.Captures.{
  capture_directory, require_instances_file, validate_artifact_file, validate_artifacts,
  validate_capture_scope, read_capture_from_directory, read_instances,
}
use optic.Evidence

module _ (fs : FileSystem) where
  -- A regular file of this length.
  abbrev pub IsFile : StorePath → ℕ → Type 0
  IsFile path len =
      (metadata : Metadata) × (fs.symlink_metadata path ≡ ok metadata)
      × (is_file metadata.kind ≡ true)
      × (metadata.len ≡ len)

  validate_artifact_file_iff :
      (path : StorePath) (a : ArtifactRecord)
      → Passes (validate_artifact_file fs path a) ↔ IsFile path a.byte_len
  unfolding validate_artifact_file
  validate_artifact_file_iff path a = (
    λ h.
        let (metadata, found, rest) =
          >>=-ok (map_err (filesystem "read artifact metadata" path) (fs.symlink_metadata path)) _
            h in
        let (_, regular, rest) =
          >>=-ok (ensure (is_file metadata.kind) (unexpected_file_type "file" path)) _ rest in
        (
          metadata,
          map_err-ok (filesystem "read artifact metadata" path) (fs.symlink_metadata path) found,
          ground (arith, regular),
          (==_iff metadata.len a.byte_len).0 (ground (arith, rest)),
        ),
    λ (metadata, found, regular, same). ground (arith, found, regular, same),
  )

  -- The artifacts of a manifest pass exactly if each has its regular file, of the declared length.
  pub validate_artifacts_iff :
      (directory : StorePath) (m : InstanceManifest)
      → Passes (validate_artifacts fs directory m)
        ↔ All (λ (a : ArtifactRecord). IsFile (join directory (file_name a)) a.byte_len) m.artifacts
  unfolding validate_artifacts
  validate_artifacts_iff directory m =
      let check =
        λ (a : ArtifactRecord). validate_artifact_file fs (join directory (file_name a)) a in
      let (there, back) = for_each_iff check m.artifacts in
      (
        λ h.
            All-imp (λ a. (validate_artifact_file_iff (join directory (file_name a)) a).0)
              m.artifacts (there h),
        λ h. back (
            All-imp (λ a. (validate_artifact_file_iff (join directory (file_name a)) a).1)
              m.artifacts h),
      )

pub validate_capture_scope_iff :
    (path : StorePath) (directory_id record_id : CaptureId)
    → Passes (validate_capture_scope path directory_id record_id) ↔ (record_id ≡ directory_id)
unfolding validate_capture_scope
validate_capture_scope_iff path directory_id record_id =
    ground (arith, capture_id_eq.beq_iff record_id directory_id)

both_pass :
    (s v : Result Error (Unit {0})) (n m : InstanceManifest)
    → (s >> (v >> ok n)) ≡ ok m
    → Passes s × Passes v × (n ≡ m)
both_pass (ok u) (ok w) n m h = (refl, refl, ok-inj {E = Error} (ok n) refl h)
both_pass (ok u) (err e) n m h = absurd (cc h)
both_pass (err e) v n m h = absurd (cc h)

module _ (fs : FileSystem) (A : Type 0) (decode_capture : List ℕ → Option (RawCaptureRecord A))
    (decode_manifest : List ℕ → Option RawInstanceManifest) where
  checked_manifest :
      (id : CaptureId) (directory path : StorePath) (m : InstanceManifest)
      → (read_record decode_manifest InstanceManifest.try_from fs path max_instances_bytes >>= λ n.
          validate_capture_scope path id n.capture_id
          >> (validate_artifacts fs directory n >> ok n))
        ≡ ok m
      → (read_record decode_manifest InstanceManifest.try_from fs path max_instances_bytes ≡ ok m)
        × Passes (validate_capture_scope path id m.capture_id)
        × Passes (validate_artifacts fs directory m)
  checked_manifest id directory path m h =
      let (n, read, rest) =
        >>=-ok (read_record decode_manifest InstanceManifest.try_from fs path max_instances_bytes) _
          h in
      let (scope, files, same) =
        both_pass (validate_capture_scope path id n.capture_id) (validate_artifacts fs directory n)
          n m rest in
      (
        read ∙ ap ok same,
        subst (λ (x : InstanceManifest). Passes (validate_capture_scope path id x.capture_id)) same
            scope,
        subst (λ x. Passes (validate_artifacts fs directory x)) same files,
      )

  -- A header is read for the capture that was asked for.
  pub capture_scope :
      (directory : StorePath) (id : CaptureId) (c : CaptureRecord A)
      → read_capture_from_directory fs decode_capture decode_manifest directory id ≡ ok c
      → c.id ≡ id
  unfolding read_capture_from_directory validate_capture_scope
  capture_scope directory id c h =
      let (d, _, rest) =
        >>=-ok
          (read_record decode_capture CaptureRecord.try_from fs (join directory capture_file_name)
            max_header_bytes)
          _ h in
      let (_, scope, same) =
        >>=-ok (validate_capture_scope (join directory capture_file_name) id d.id) _ rest in
      subst (λ (x : CaptureRecord A). x.id ≡ id) (ok-inj (ok d) refl same)
        ((validate_capture_scope_iff (join directory capture_file_name) id d.id).0 scope)

  -- A manifest that is read is valid and belongs to the capture that was asked for; it comes from
  -- at most 128 MiB, which decode to its stored form; the header in the same directory is read
  -- for the same capture; and each artifact that it declares is a regular file of the declared length.
  pub read_instances_sound :
      (id : CaptureId) (m : InstanceManifest)
      → read_instances fs decode_capture decode_manifest id ≡ ok m
      → (directory : StorePath) × (header : CaptureRecord A) × (bytes : List ℕ) × (capture_directory
            fs id
          ≡ ok directory)
        × (read_capture_from_directory fs decode_capture decode_manifest directory id ≡ ok header)
        × (length bytes ≤ max_instances_bytes)
        × (decode_manifest bytes ≡ some (raw_of m))
        × IsManifest m
        × (m.capture_id ≡ id)
        × All
            (λ (a : ArtifactRecord). IsFile fs (join directory (file_name a)) a.byte_len)
            m.artifacts
  unfolding read_instances
  read_instances_sound id m h =
      let (directory, located, rest) = >>=-ok (capture_directory fs id) _ h in
      let (header, headed, rest) =
        >>=-ok (read_capture_from_directory fs decode_capture decode_manifest directory id) _
          rest in
      let (path, there, rest) = >>=-ok (require_instances_file fs directory) _ rest in
      let (read, scope, files) = checked_manifest id directory path m rest in
      let (_, bytes, raw, _, _, fits, decoded, converted) =
        read_record_sound decode_manifest InstanceManifest.try_from fs path max_instances_bytes m
          read in
      let (stored, valid) = (try_from_iff raw m).0 converted in
      (
        directory,
        header,
        bytes,
        located,
        headed,
        fits,
        decoded ∙ ap some stored,
        valid,
        (validate_capture_scope_iff path id m.capture_id).0 scope,
        (validate_artifacts_iff fs directory m).0 files,
      )

  -- The queries read through this store.
  abbrev pub stored : Evidence.Store Error
  stored = record {
    read_instances = read_instances fs decode_capture decode_manifest;
    read_valid = λ id m h.
        let (_, _, _, _, _, _, _, valid, scope, _) = read_instances_sound id m h in (valid, scope);
  }
