-- ===== src/Store/Publish/Sparing.antt =====
-- Steps of a publication that change nothing at a path or below it.
use optic.Prelude.{
  ℕ, zero, suc, ◌+◌, ◌-◌, min, Bool, true, false, not, List, [], ◌∷◌, ◌++◌, ◌≡◌, Result, ok, err,
  All, ensure, map_err, length, ltb, ◌==◌, if◌then◌else◌,
}
use optic.Prelude.Text.{Text}
use optic.Records.Artifact.{ArtifactRecord, file_name}
use optic.Records.InstanceManifest.{InstanceManifest}
use optic.Store.{
  StorePath, join, IoError, is_dir, unexpected_file_type, record_too_large, Error, filesystem,
}
use optic.Store.Captures.{directory_exists, validate_artifact_file}
use optic.Store.Effects.{
  Change, create_dir, create_file, flush, write, rename, Os, Run, Act, continue, each, changed,
  attempt,
}
use optic.Store.Copying.{copy_buffer_bytes}
use optic.Store.Publish.{
  create_directory, write_pieces, write_record, copy_artifact_bytes, copy_artifact, copy_artifacts,
}

-- The second path is the first or below it.
abbrev pub Within : StorePath → StorePath → Type 0
Within path p = (rest : StorePath) × (p ≡ path ++ rest)

abbrev pub Outside : StorePath → StorePath → Type 0
Outside path p = ¬ Within path p

-- Neither path is the other or below it.
abbrev pub Apart : StorePath → StorePath → Type 0
Apart path p = Outside path p × Outside p path

-- The change makes and writes nothing at the path or below it, and moves nothing from there or to
-- there, nor a directory above the path.
abbrev pub Spares : StorePath → Change → Type 0
Spares path (create_dir p) = Outside path p
Spares path (create_file p) = Outside path p
Spares path (flush p) = Outside path p
Spares path (write p bytes) = Outside path p
Spares path (rename p q) = Apart path p × Apart path q

abbrev pub Spared : {W : Type 0} → StorePath → Run W → Type 0
Spared path run = All (Spares path) run.changes

-- However the steps end, they have changed nothing at the path or below it.
pub data Keeps {W A : Type 0} (path : StorePath) : Result Error A × Run W → Type 0 where
  keeps : (r : Result Error A) (run : Run W) → Spared path run → Keeps path (r, run)

module _ {W : Type 0} {path : StorePath} where
  pub bind :
      {A B : Type 0} {x : Result Error A × Run W} {f : A → Act W B}
      → Keeps path x
      → ((a : A) (run : Run W) → Spared path run → Keeps path (f a run))
      → Keeps path (continue x f)
  bind (keeps (ok a) run h) k = k a run h
  bind (keeps (err e) run h) k = keeps (err e) run h

  -- A step that only reads.
  pub after :
      {A B : Type 0} (r : Result Error A) (f : A → Act W B) (run : Run W)
      → Spared path run
      → ((a : A) → Keeps path (f a run))
      → Keeps path (continue (r, run) f)
  after (ok a) f run h k = k a
  after (err e) f run h k = keeps (err e) run h

  pub branch :
      {A : Type 0} (b : Bool) (m m' : Act W A) (run : Run W)
      → Keeps path (m run)
      → Keeps path (m' run)
      → Keeps path ((if b then m else m') run)
  branch true m m' run k k' = k
  branch false m m' run k k' = k'

  pub each-Keeps :
      {A : Type 0} (f : A → Act W (Unit {0})) (xs : List A) (run : Run W)
      → ((x : A) (run : Run W) → Spared path run → Keeps path (f x run))
      → Spared path run
      → Keeps path (each f xs run)
  each-Keeps f [] run k h = keeps _ run h
  each-Keeps f (x ∷ xs) run k h = bind (k x run h) λ _ run' h'. each-Keeps f xs run' k h'

  pub changed-Keeps :
      (os : Os W) (failure : IoError → Error) (c : Change) (changes : List Change)
      (r : Result IoError (Unit {0}) × W)
      → Spares path c
      → All (Spares path) changes
      → Keeps path (changed os failure c changes r)
  changed-Keeps os failure c changes (ok _, w) s h = keeps _ _ (s, h)
  changed-Keeps os failure c changes (err e, w) s h = keeps _ _ h

  pub attempt-Keeps :
      (os : Os W) (failure : IoError → Error) (c : Change) (run : Run W)
      → Spares path c
      → Spared path run
      → Keeps path (attempt os failure c run)
  attempt-Keeps os failure c run s h =
      changed-Keeps os failure c run.changes (os.change c run.world) s h

  pub create_directory-Keeps :
      (os : Os W) (p : StorePath) (run : Run W)
      → Outside path p
      → Spared path run
      → Keeps path (create_directory os p run)
  unfolding create_directory
  create_directory-Keeps os p run s h =
      after (directory_exists (os.observe run.world) p) _ run h λ exists.
        branch (not exists) _ _ run (attempt-Keeps os _ (create_dir p) run s h) (keeps _ run h)

  write_pieces-Keeps :
      (os : Os W) (p : StorePath) (limit remaining : ℕ) (pieces : List (List ℕ)) (run : Run W)
      → Outside path p
      → Spared path run
      → Keeps path (write_pieces os p limit remaining pieces run)
  unfolding write_pieces
  write_pieces-Keeps os p limit remaining [] run s h = keeps _ run h
  write_pieces-Keeps os p limit remaining (piece ∷ rest) run s h =
      branch (ltb remaining (length piece)) _ _ run (keeps _ run h) (
        bind (attempt-Keeps os _ (write p piece) run s h)
          λ _ run h. write_pieces-Keeps os p limit (remaining - length piece) rest run s h)

  pub write_record-Keeps :
      (os : Os W) (p : StorePath) (pieces : List (List ℕ)) (limit : ℕ) (run : Run W)
      → Outside path p
      → Spared path run
      → Keeps path (write_record os p pieces limit run)
  unfolding write_record
  write_record-Keeps os p pieces limit run s h =
      bind (attempt-Keeps os _ (create_file p) run s h) λ _ run h.
        bind (write_pieces-Keeps os p limit limit pieces run s h) λ remaining run h.
          after (ensure (not (remaining == 0)) (record_too_large p limit (limit + 1))) _ run h λ _.
            bind (attempt-Keeps os _ (write p (10 ∷ [])) run s h)
              λ _ run h. attempt-Keeps os _ (flush p) run s h

  on_decision :
      {A : Type 0} (b : Bool) (m m' : Act W A) (run : Run W)
      → Keeps path (m run)
      → Keeps path (m' run)
      → Keeps path (elim b as (λ _. Act W A) [ true ↦ m | false ↦ m' ] run)
  on_decision true m m' run k k' = k
  on_decision false m m' run k k' = k'

  copy_bytes-Keeps :
      (os : Os W) (fuel position : ℕ) (source p : StorePath) (remaining : ℕ) (run : Run W)
      → Outside path p
      → Spared path run
      → Keeps path (copy_artifact_bytes os fuel position source p remaining run)
  unfolding copy_artifact_bytes
  copy_bytes-Keeps os zero position source p remaining run s h = keeps _ run h
  copy_bytes-Keeps os (suc fuel) position source p remaining run s h =
      on_decision (remaining == 0) _ _ run (keeps _ run h) (
        after
          (map_err (filesystem "read artifact" source)
            (os.read_exact run.world source position (min remaining copy_buffer_bytes)))
          _ run h
          λ bytes. bind (attempt-Keeps os _ (write p bytes) run s h) λ _ run h.
            copy_bytes-Keeps os fuel (position + min remaining copy_buffer_bytes) source p
              (remaining - min remaining copy_buffer_bytes) run s h)

  copy_artifact-Keeps :
      (os : Os W) (input staging : StorePath) (artifact : ArtifactRecord) (run : Run W)
      → ((name : Text) → Outside path (join staging name))
      → Spared path run
      → Keeps path (copy_artifact os input staging artifact run)
  unfolding copy_artifact
  copy_artifact-Keeps os input staging artifact run s h =
      let s' = s (file_name artifact) in
      let source = join input (file_name artifact) in
      after (validate_artifact_file (os.observe run.world) source artifact) _ run h λ _.
        after
          (map_err (filesystem "open artifact" source) ((os.observe run.world).open_file source)) _
          run h
          λ _.
            bind (attempt-Keeps os _ (create_file (join staging (file_name artifact))) run s' h)
              λ _ run h.
                bind
                  (copy_bytes-Keeps os artifact.byte_len 0 (join input (file_name artifact))
                    (join staging (file_name artifact)) artifact.byte_len run s' h)
                  λ _ run h. keeps _ run h

  pub copy_artifacts-Keeps :
      (os : Os W) (input staging : StorePath) (m : InstanceManifest) (run : Run W)
      → ((name : Text) → Outside path (join staging name))
      → Spared path run
      → Keeps path (copy_artifacts os input staging m run)
  unfolding copy_artifacts
  copy_artifacts-Keeps os input staging m run s h =
      after
        (map_err (filesystem "read artifact directory" input)
          ((os.observe run.world).symlink_metadata input))
        _ run h
        λ metadata.
          after (ensure (is_dir metadata.kind) (unexpected_file_type "directory" input)) _ run h
            λ _.
              bind
                (each-Keeps (copy_artifact os input staging) m.artifacts run
                  (λ a run h. copy_artifact-Keeps os input staging a run s h) h)
                λ _ run h. keeps _ run h
