-- ===== src/Compiler/Observation.antt =====
-- crates/cargo-optic-compiler/src/observation.rs: which of Cargo's artifacts is the selected one,
-- and what counts as a completed build.
use optic.Prelude.{
  Bool, true, false, not, ◌&&◌, List, [], ◌∷◌, ◌++◌, Result, ok, err, ◌>>=◌, ◌>>◌, ensure, map_err,
  length, list_beq, if◌then◌else◌,
}
use optic.Prelude.Text.{Text, text_eq, text_beq}
use optic.Prelude.Sorting.{sort_by}
use optic.Records.Identity.{list_text_eq}
use optic.Records.Validation.{FilePath, components}
use optic.Records.CargoArtifactRecord
use optic.Records.CargoArtifactRecord.{Target, Artifact, CargoArtifactRecord, Orders, sorted_target}
use optic.Compiler.{Error, compiler_environment, invalid_record, plain, shows_number}
use optic.Compiler.FilePaths.{components_eq}

pub record CargoObservation : Type 0 where
  pub selected : List Artifact
  pub finished : List Bool
  pub has_errors : Bool

abbrev pub bool_beq : Bool → Bool → Bool
bool_beq true b = b
bool_beq false b = not b

-- `self.finished == [true]`
abbrev pub is_one_success : List Bool → Bool
is_one_success (true ∷ []) = true
is_one_success _ = false

-- The derived equality of targets: paths are equal by their components.
unfoldable pub target_beq : Target → Target → Bool
unfolding list_beq text_beq components
target_beq a b =
    text_beq a.name b.name
    && list_text_eq.beq a.kind b.kind
    && list_text_eq.beq a.crate_types b.crate_types
    && list_text_eq.beq a.required_features b.required_features
    && components_eq.beq (components a.src_path) (components b.src_path)
    && text_beq a.other_fields b.other_fields

abbrev paths_beq : List FilePath → List FilePath → Bool
paths_beq [] [] = true
paths_beq (a ∷ as_) (b ∷ bs) = components_eq.beq (components a) (components b) && paths_beq as_ bs
paths_beq _ _ = false

unfoldable pub artifact_beq : Artifact → Artifact → Bool
unfolding target_beq list_beq text_beq components
artifact_beq a b =
    text_beq a.package_id b.package_id
    && components_eq.beq (components a.manifest_path) (components b.manifest_path)
    && target_beq a.target b.target
    && text_beq a.opt_level b.opt_level
    && list_text_eq.beq a.features b.features
    && paths_beq a.filenames b.filenames
    && paths_beq (CargoArtifactRecord.option_list a.executable)
        (CargoArtifactRecord.option_list b.executable)
    && bool_beq a.fresh b.fresh
    && text_beq a.other_fields b.other_fields

module _ (orders : Orders) where
  -- `CargoObservation::record`
  unfoldable pub record_artifact : Artifact → Text → Target → CargoObservation → CargoObservation
  unfolding sort_by text_beq list_beq
  record_artifact artifact owner target o =
      let kinds = sort_by orders.kind artifact.target.kind in
      let expected_kinds = sort_by orders.kind target.kind in
      if text_beq artifact.package_id owner
        && text_beq artifact.target.name target.name
        && list_text_eq.beq kinds expected_kinds
      then record o { selected = o.selected ++ artifact ∷ [] }
      else o

  abbrev pub one_artifact : List Artifact → Result Error Artifact
  one_artifact (artifact ∷ []) = ok artifact
  one_artifact artifacts = err (
      compiler_environment
        (shows_number "Cargo requires one matching selected artifact" (length artifacts)))

  unfoldable pub completed : Target → Bool → CargoObservation → Result Error CargoArtifactRecord
  unfolding target_beq sorted_target
  completed target fresh o = do
    ensure (is_one_success o.finished && not o.has_errors)
        (compiler_environment (plain "successful Cargo completion"))
    artifact ← one_artifact o.selected
    ensure (bool_beq artifact.fresh fresh)
        (compiler_environment (plain "selected artifact freshness"))
    record_ ← map_err invalid_record (CargoArtifactRecord.new orders artifact)
    ensure (target_beq record_.artifact.target (sorted_target orders target))
        (compiler_environment (plain "selected artifact must match the prepared Cargo target"))
    ok record_
