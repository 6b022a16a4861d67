-- ===== src/Records/CargoArtifactRecord.antt =====
-- crates/cargo-optic-records/src/cargo_artifact_record.rs. Of cargo_metadata's `Artifact` and
-- `Target`, the fields that the crates read; `other_fields` stands for those that they only compare.
-- Kinds and crate types are their texts. The orders of cargo_metadata's types are parameters.
use optic.Prelude.{
  Bool, false, not, ◌||◌, Option, none, some, List, [], ◌∷◌, ◌++◌, ok, ◌>>◌, ensure, for_each,
  is_empty,
}
use Prim.Native.Nat.{Ordering}
use optic.Prelude.Text.{Text}
use optic.Prelude.Sorting.{cmp, sort_by}
use optic.Records.Error.{Checked, invalid_field, empty_target_identity}
use optic.Records.Validation.{FilePath, require_text, require_absolute_normalized_path}

pub record Target : Type 0 where
  pub name : Text
  pub kind : List Text
  pub crate_types : List Text
  pub required_features : List Text
  pub src_path : FilePath
  pub other_fields : Text

pub record Artifact : Type 0 where
  pub package_id : Text
  pub manifest_path : FilePath
  pub target : Target
  pub opt_level : Text
  pub features : List Text
  pub filenames : List FilePath
  pub executable : Option FilePath
  pub fresh : Bool
  pub other_fields : Text

pub record CargoArtifactRecord : Type 0 where
  pub artifact : Artifact

-- How the vectors of cargo_metadata's types sort.
pub record Orders : Type 0 where
  pub kind : Text → Text → Ordering
  pub crate_type : Text → Text → Ordering
  pub path : FilePath → FilePath → Ordering

abbrev pub option_list {ℓ} : {A : Type ℓ} → Option A → List A
option_list none = []
option_list (some a) = a ∷ []

module _ (orders : Orders) where
  -- The unordered fields of a target, sorted.
  unfoldable pub sorted_target : Target → Target
  unfolding sort_by cmp
  sorted_target t = record t {
    kind = sort_by orders.kind t.kind;
    crate_types = sort_by orders.crate_type t.crate_types;
    required_features = sort_by cmp t.required_features;
  }

  unfoldable pub normalized : Artifact → Artifact
  unfolding sorted_target sort_by cmp
  normalized a = record a {
    fresh = false;
    features = sort_by cmp a.features;
    filenames = sort_by orders.path a.filenames;
    target = sorted_target a.target;
  }

  unfoldable pub new : Artifact → Checked CargoArtifactRecord
  unfolding require_absolute_normalized_path normalized
  new artifact = do
    require_text "Cargo artifact package ID" artifact.package_id
    require_text "Cargo artifact target name" artifact.target.name
    require_text "Cargo artifact optimization level" artifact.opt_level
    ensure (not (is_empty artifact.target.kind || is_empty artifact.target.crate_types))
        (invalid_field "Cargo artifact target identity" empty_target_identity)
    for_each (require_text "Cargo artifact target kind") artifact.target.kind
    for_each (require_text "Cargo artifact crate type") artifact.target.crate_types
    for_each (require_text "Cargo artifact feature")
        (artifact.features ++ artifact.target.required_features)
    require_absolute_normalized_path "Cargo artifact manifest path" artifact.manifest_path
    require_absolute_normalized_path "Cargo artifact source path" artifact.target.src_path
    for_each (require_absolute_normalized_path "Cargo artifact output path")
        (artifact.filenames ++ option_list artifact.executable)
    ok (record { artifact = normalized artifact })
