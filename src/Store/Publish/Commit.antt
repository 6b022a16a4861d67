-- ===== src/Store/Publish/Commit.antt =====
-- A capture becomes visible by the last change of a publication, and by no other.
use optic.Prelude.{ℕ, not, List, [], ◌∷◌, ◌≡◌, refl, Result, ok, err, All, ensure, map_err, ◌==◌}
use optic.Prelude.Text.{codes}
use optic.Records.CaptureId.{CaptureId}
use optic.Records.CaptureKey.{CaptureKey}
use optic.Records.CaptureRecord.{CaptureRecord}
use optic.Records.InstanceManifest.{InstanceManifest}
use optic.Store.{
  StorePath, join, IoError, not_found, other, Metadata, Error, filesystem, optic_root, root,
  capture_file_name, instances_file_name,
}
use optic.Store.Effects.{
  Change, create_dir, create_file, write, rename, Os, Run, continue, ◌>>◌, changed, attempt,
}
use optic.Store.Candidate.{CandidatePointer, candidate_path}
use optic.Store.Publish.{
  create_directory, ignore, check_ignore, initialize, stage, staging_of, completed_of, prepare,
  publish,
}
use optic.Store.Publish.{ignore_bytes, read_ignore, require_vacant}
use optic.Store.{is_file, mismatched_published_capture_id}
use optic.Records.CaptureId.{capture_id_eq}
use optic.Store.Publish.Sparing.{
  Spares, Spared, Keeps, keeps, bind, after, branch, each-Keeps, attempt-Keeps,
  create_directory-Keeps, write_record-Keeps, copy_artifacts-Keeps,
}

module _ {W : Type 0} (os : Os W) (id : CaptureId) where
  abbrev completed : StorePath
  completed = completed_of id

  check_ignore-Keeps :
      (found : Result IoError Metadata) (run : Run W)
      → Spared completed run
      → Keeps completed (check_ignore os found run)
  unfolding check_ignore
  check_ignore-Keeps (ok metadata) run h =
      branch (not (is_file metadata.kind)) _ _ run (keeps _ run h) (
        branch (not (metadata.len == 2)) _ _ run (keeps _ run h) (
          after (map_err (filesystem "read" (ignore os)) (read_ignore os (os.observe run.world))) _
            run h λ bytes. keeps _ run h))
  check_ignore-Keeps (err not_found) run h =
      bind (attempt-Keeps os _ (create_file (ignore os)) run (λ (rest, e). cc) h)
        λ _ run h. attempt-Keeps os _ (write (ignore os) (ignore_bytes os)) run (λ (rest, e). cc) h
  check_ignore-Keeps (err (other text)) run h = keeps _ run h

  pub initialize-Keeps : (run : Run W) → Spared completed run → Keeps completed (initialize os run)
  unfolding initialize
  initialize-Keeps run h =
      bind (create_directory-Keeps os optic_root run (λ (rest, e). cc) h) λ _ run h.
        bind (check_ignore-Keeps ((os.observe run.world).symlink_metadata (ignore os)) run h)
          λ _ run h. bind (create_directory-Keeps os root run (λ (rest, e). cc) h) λ _ run h.
            each-Keeps (λ name. create_directory os (join root name))
              (codes "staging" ∷ codes "captures" ∷ codes "candidates" ∷ []) run
              (λ name run h. create_directory-Keeps os (join root name) run (λ (rest, e). cc) h) h

  stage-Keeps :
      (input : StorePath) (m : InstanceManifest) (a b c : List (List ℕ)) (run : Run W)
      → Spared completed run
      → Keeps completed (stage os input (staging_of id) m a b c run)
  unfolding stage
  stage-Keeps input m a b c run h =
      bind (attempt-Keeps os _ (create_dir (staging_of id)) run (λ (rest, e). cc) h) λ _ run h.
        bind
          (write_record-Keeps os (join (staging_of id) capture_file_name) a _ run (λ (rest, e). cc)
            h)
          λ _ run h.
            bind
              (write_record-Keeps os (join (staging_of id) instances_file_name) b _ run
                (λ (rest, e). cc) h)
              λ _ run h.
                bind (copy_artifacts-Keeps os input (staging_of id) m run (λ name (rest, e). cc) h)
                  λ _ run h.
                    write_record-Keeps os (join (staging_of id) (codes "candidate.json")) c _ run
                      (λ (rest, e). cc) h

-- How a publication ends, with the changes that have succeeded, the latest first. After a failure
-- all of them spare the completed capture. After a success, the replacement of the pointer and the
-- commit of the capture are the last ones, and all before spare the completed capture.
abbrev pub Committed :
    {W : Type 0} → CaptureId → CaptureKey → Result Error (Unit {0}) × Run W → Type 0
Committed id key (err e, run) = Spared (completed_of id) run
Committed id key (ok _, run) =
    (before : List Change) × (All (Spares (completed_of id)) before
      × (run.changes
          ≡ rename (staging_of id) (completed_of id)
            ∷ rename (join (staging_of id) (codes "candidate.json")) (candidate_path key)
            ∷ before))

module _ {W : Type 0} (os : Os W) (id : CaptureId) (key : CaptureKey) where
  abbrev staged_pointer : StorePath
  staged_pointer = join (staging_of id) (codes "candidate.json")

  committed :
      (failure : IoError → Error) (changes : List Change) (r : Result IoError (Unit {0}) × W)
      → All (Spares (completed_of id)) changes
      → Committed id key (
          changed os failure
            (rename (staging_of id) (completed_of id))
            (rename staged_pointer (candidate_path key) ∷ changes)
            r)
  unfolding candidate_path
  committed failure changes (ok _, w) h = (changes, (h, refl))
  committed failure changes (err e, w) h =
      ((((λ (rest, e). cc), (λ (rest, e). cc)), ((λ (rest, e). cc), (λ (rest, e). cc))), h)

  replaced :
      (failure failure' : IoError → Error) (changes : List Change)
      (r : Result IoError (Unit {0}) × W)
      → All (Spares (completed_of id)) changes
      → Committed id key (
          continue
            (changed os failure (rename staged_pointer (candidate_path key)) changes r)
            (λ _. attempt os failure' (rename (staging_of id) (completed_of id))))
  replaced failure failure' changes (ok _, w) h =
      committed failure' changes (os.change (rename (staging_of id) (completed_of id)) w) h
  replaced failure failure' changes (err e, w) h = h

  renamed :
      (failure failure' : IoError → Error) (x : Result Error (Unit {0}) × Run W)
      → Keeps (completed_of id) x
      → Committed id key (
          continue x (λ _.
            attempt os failure (rename staged_pointer (candidate_path key))
            >> attempt os failure' (rename (staging_of id) (completed_of id))))
  renamed failure failure' _ (keeps (ok a) run h) =
      replaced failure failure' run.changes
        (os.change (rename staged_pointer (candidate_path key)) run.world) h
  renamed failure failure' _ (keeps (err e) run h) = h

module _ {W A : Type 0} (os : Os W) (encode_capture : CaptureRecord A → List (List ℕ))
    (encode_manifest : InstanceManifest → List (List ℕ))
    (encode_pointer : CandidatePointer → List (List ℕ)) where
  prepare-Keeps :
      (c : CaptureRecord A) (m : InstanceManifest) (input : StorePath) (run : Run W)
      → Spared (completed_of c.id) run
      → Keeps
          (completed_of c.id)
          (prepare os encode_capture encode_manifest encode_pointer c m input run)
  unfolding prepare
  prepare-Keeps c m input run h =
      after
        (ensure (capture_id_eq.beq c.id m.capture_id)
          (mismatched_published_capture_id c.id m.capture_id))
        _ run h
        λ _. bind (initialize-Keeps os c.id run h) λ _ run h.
          after
            (require_vacant os c.id (completed_of c.id)
              ((os.observe run.world).symlink_metadata (completed_of c.id)))
            _ run h λ _. stage-Keeps os c.id input m _ _ _ run h

  -- The same behind earlier changes that have spared the completed capture.
  pub publish-Committed :
      (c : CaptureRecord A) (m : InstanceManifest) (input : StorePath) (run : Run W)
      → Spared (completed_of c.id) run
      → Committed c.id c.analysis.request_key
          (publish os encode_capture encode_manifest encode_pointer c m input run)
  unfolding publish
  publish-Committed c m input run h =
      renamed os c.id c.analysis.request_key _ _ _ (prepare-Keeps c m input run h)

  -- Whatever the operating system does: where publishing fails, no change that has succeeded made,
  -- wrote or flushed anything at the directory of the completed capture or below it, or moved
  -- anything from there or to there, or a directory above it, so it publishes none. Where it
  -- succeeds, its last change moves the staged capture into place, the one before replaces the
  -- candidate pointer, and all others leave the completed capture alone in the same sense.
  pub publish_commits :
      (c : CaptureRecord A) (m : InstanceManifest) (input : StorePath) (w : W)
      → Committed c.id c.analysis.request_key (
          publish os encode_capture encode_manifest encode_pointer c m input
            (record { world = w; changes = [] }))
  publish_commits c m input w = publish-Committed c m input (record { world = w; changes = [] }) tt
