-- ===== src/Tests/Publication.antt =====
-- Publishing the small capture into a store that is there already.
use optic.Prelude.{ℕ, ◌+◌, ◌≤◌, List, [], ◌∷◌, ◌++◌, ◌≡◌, refl, ok, list_beq}
use optic.Prelude.Text.{codes, text_beq}
use optic.Records.Artifact.{file_name, hex_onto}
use optic.Records.Identity.{list_text_eq}
use optic.Store.{StorePath, join, file, directory, Metadata, FileSystem, optic_root, root}
use optic.Store.Captures.{directory_exists, validate_artifact_file, validate_artifacts}
use optic.Store.Effects.{Os, Run, create_file, flush, write}
use optic.Store.Publish.{
  create_directory, check_ignore, initialize, write_pieces, write_record, copy_artifact_bytes,
  copy_artifact, copy_artifacts, stage, staging_of, prepare, publish,
}
use optic.Store.Publish.Sizes.{total, write_record_fits}
use optic.Store.Publish.Commit.{Committed, publish_commits}
use optic.Tests.Data.{capture, manifest}
use optic.Tests.Store.{metadata_in}
use optic.Tests.Candidates.{found}

abbrev input : StorePath
input = codes "in" ∷ []

abbrev artifact_files : StorePath → List (StorePath × Metadata)
artifact_files path =
    (join path (codes "artifact-0000000000000000"), record { kind = file; len = 10 })
    ∷ (join path (codes "artifact-0000000000000001"), record { kind = file; len = 100 })
    ∷ []

abbrev disk : FileSystem
disk = record {
  symlink_metadata = metadata_in (
      (optic_root, record { kind = directory; len = 0 })
      ∷ (join optic_root (codes ".gitignore"), record { kind = file; len = 2 })
      ∷ (root, record { kind = directory; len = 0 })
      ∷ (join root (codes "staging"), record { kind = directory; len = 0 })
      ∷ (join root (codes "captures"), record { kind = directory; len = 0 })
      ∷ (input, record { kind = directory; len = 0 })
      ∷ (artifact_files input ++ artifact_files (staging_of capture)));
  open_file = λ path. ok (λ n. ok (codes "*" ++ 10 ∷ []));
}

-- Every change succeeds.
abbrev willing : Os (Unit {0})
willing = record {
  observe = λ w. disk;
  read_exact = λ w path position n. ok [];
  change = λ c w. (ok tt, w);
}

abbrev pieces : {A : Type 0} → A → List (List ℕ)
pieces a = (1 ∷ []) ∷ []

abbrev first : Run (Unit {0})
first = record { world = tt; changes = [] }

published : (publish willing pieces pieces pieces found manifest input first).0 ≡ ok tt
unfolding publish prepare stage initialize check_ignore create_directory write_record write_pieces
    copy_artifacts copy_artifact copy_artifact_bytes directory_exists validate_artifact_file
    validate_artifacts file_name hex_onto list_beq text_beq
published = refl

publish_commits_example :
    Committed capture
      (record { text = codes "key" })
      (publish willing pieces pieces pieces found manifest input first)
publish_commits_example = publish_commits willing pieces pieces pieces found manifest input tt

abbrev place : StorePath
place = codes "f" ∷ []

abbrev last : Run (Unit {0})
last = record {
  world = tt;
  changes = flush place ∷ write place (10 ∷ []) ∷ write place (1 ∷ []) ∷ create_file place ∷ [];
}

written : write_record willing place (pieces manifest) 2 first ≡ (ok tt, last)
unfolding write_record write_pieces
written = refl

write_record_fits_example : total (pieces manifest) + 1 ≤ 2
write_record_fits_example = write_record_fits willing place 2 (pieces manifest) first last written
