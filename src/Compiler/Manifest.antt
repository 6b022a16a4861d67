-- ===== src/Compiler/Manifest.antt =====
-- crates/cargo-optic-compiler/src/manifest/mod.rs, and what decoder.rs does with the fields of a
-- record once they are read. A `BTreeMap` is the list of its entries in the order of the keys.
use optic.Prelude.{
  ℕ, ◌≡◌, Bool, true, false, not, ◌&&◌, Option, none, some, List, [], ◌∷◌, ◌++◌, Result, ok, err,
  ◌>>=◌, ◌>>◌, ensure, map, map_err, is_empty, contains, Eq, key_eq, ◌==◌, if◌then◌else◌, arith,
}
use Prim.Native.Nat.{Ordering}
use optic.Prelude.Text.{Text, text_eq, codes}
use optic.Prelude.Sorting.{cmp, then_with, insert_sorted}
use optic.Records.Error.{Checked}
use optic.Records.Validation.{FilePath, Component, normal, components}
use optic.Records.Artifact.{ArtifactId, ArtifactRecord, source, artifact_id_eq}
use optic.Records.DefinitionRecord
use optic.Records.InstanceRecord
use optic.Records.InstanceRecord.{InstanceRecord}
use optic.Records.PlacementRecord.{PlacementRecord}
use optic.Records.SourceRecord.{
  SourceAvailability, SourceUnavailable, available, unavailable, nonlocal, unloaded, generated,
  unsupported_span, outside_package,
}
use optic.Records.LlvmProvenance.{LlvmLto, off, local_thin, cross_crate_thin, fat}
use optic.Records.LlvmModuleRecord.{
  UnsupportedLlvmConfiguration, incremental, cross_crate_thin_lto, fat_lto, linker_plugin_lto,
  other_backend, unverified_compiler,
}
use optic.Records.Identity.{list_text_eq}
use optic.Compiler.{
  Error, Message, invalid_manifest, invalid_record, panicked, plain, shows_number, shows_text,
}
use optic.Compiler.Protocol.{
  lto_off, lto_local_thin, lto_cross_crate_thin, lto_fat, llvm_supported,
  llvm_unsupported_incremental, llvm_unsupported_cross_crate_thin, llvm_unsupported_fat,
  llvm_unsupported_linker_plugin, llvm_unsupported_other_backend,
  llvm_unsupported_unverified_compiler, source_nonlocal, source_unloaded, source_generated,
  source_unsupported_span, source_outside_package,
}
use optic.Compiler.FilePaths.{component_eq, components_eq, parent, file_name}

pub record InstanceKey : Type 0 where
  pub definition_crate : Text
  pub definition_path : Text
  pub display_name : Text
  pub raw_symbol : Text

abbrev pub key_texts : InstanceKey → List Text
key_texts k = k.definition_crate ∷ k.definition_path ∷ k.display_name ∷ k.raw_symbol ∷ []

pub key_texts-injective : (a b : InstanceKey) → key_texts a ≡ key_texts b → a ≡ b
key_texts-injective a b h = ground arith

instance abbrev pub instance_key_eq : Eq InstanceKey
instance_key_eq = key_eq key_texts key_texts-injective list_text_eq

-- The derived `Ord`: field by field.
unfoldable pub key_order : InstanceKey → InstanceKey → Ordering
key_order a b = then_with (cmp a.definition_crate b.definition_crate) (
    then_with (cmp a.definition_path b.definition_path)
      (then_with (cmp a.display_name b.display_name) (cmp a.raw_symbol b.raw_symbol)))

pub record InstancePlacements : Type 0 where
  pub placements : List PlacementRecord
  pub source : SourceAvailability

abbrev pub Entry : Type 0
Entry = InstanceKey × InstancePlacements

pub record Configuration : Type 0 where
  pub backend : Text
  pub target : Text
  pub optimization : Text
  pub lto : LlvmLto
  pub incremental : Bool
  pub linker_plugin : Bool
  pub codegen_units : ℕ
  pub unsupported : Option UnsupportedLlvmConfiguration

pub record ExpectedModule : Type 0 where
  pub name : Text
  pub path : FilePath

pub record CompilerManifest : Type 0 where
  pub instances : List InstanceRecord
  pub artifacts : List ArtifactRecord
  pub configuration : Configuration
  pub modules : List ExpectedModule

-- The local variables of `read`. The sets of identifiers, names and paths that were inserted are
-- those of the records in the lists.
pub record Progress : Type 0 where
  pub placements : List Entry
  pub artifacts : List ArtifactRecord
  pub modules : List ExpectedModule

abbrev pub no_records : Progress
no_records = record { placements = []; artifacts = []; modules = [] }

-- The derived `PartialEq` of the source relationship; paths are equal by their components.
abbrev reason_beq : SourceUnavailable → SourceUnavailable → Bool
reason_beq nonlocal nonlocal = true
reason_beq unloaded unloaded = true
reason_beq generated generated = true
reason_beq unsupported_span unsupported_span = true
reason_beq outside_package outside_package = true
reason_beq _ _ = false

unfoldable pub source_beq : SourceAvailability → SourceAvailability → Bool
unfolding components
source_beq (available a) (available b) =
    artifact_id_eq.beq a.artifact b.artifact
    && a.range.start == b.range.start
    && a.range.length == b.range.length
    && components_eq.beq (components a.display_path) (components b.display_path)
    && a.starting_line == b.starting_line
source_beq (unavailable a) (unavailable b) = reason_beq a b
source_beq _ _ = false

-- `BTreeMap::get_mut`
unfoldable pub get : InstanceKey → List Entry → Option InstancePlacements
get key [] = none
get key ((k, v) ∷ entries) = if instance_key_eq.beq k key then some v else get key entries

-- `existing.placements.push(placement)`
unfoldable pub push_placement : InstanceKey → PlacementRecord → List Entry → List Entry
push_placement key placement [] = []
push_placement key placement ((k, v) ∷ entries) =
    if instance_key_eq.beq k key
    then (k, record v { placements = v.placements ++ placement ∷ [] }) ∷ entries
    else (k, v) ∷ push_placement key placement entries

-- `BTreeMap::insert` of a key that is not there.
unfoldable pub insert_entry : Entry → List Entry → List Entry
unfolding insert_sorted key_order
insert_entry = insert_sorted (λ (a b : Entry). key_order a.0 b.0)

abbrev pub entry_with : InstanceKey → PlacementRecord → SourceAvailability → Entry
entry_with key placement origin = (key, record { placements = placement ∷ []; source = origin })

module _ (path : FilePath) where
  abbrev rejected : {A : Type 0} → Message → Result Error A
  rejected message = err (invalid_manifest path message)

  abbrev pub require : Bool → Message → Result Error (Unit {0})
  require test message = ensure test (invalid_manifest path message)

  -- The end of `read_instance_placement`, behind the fields.
  unfoldable pub add_placement :
      InstanceKey → PlacementRecord → SourceAvailability → Progress → Result Error Progress
  unfolding get push_placement insert_entry source_beq
  add_placement key placement origin p = elim (get key p.placements) [
    | none ↦
        ok (record p { placements = insert_entry (entry_with key placement origin) p.placements })
    | some existing ↦ do
      require (source_beq existing.source origin) (plain "conflicting source records")
      ok (record p { placements = push_placement key placement p.placements })
  ]

  -- The end of `read_source_file`.
  unfoldable pub declare_source_file : ℕ → ℕ → Progress → Result Error Progress
  unfolding contains
  declare_source_file id length p = do
    let artifact_id : ArtifactId = record { value = id }
    require (not (contains (map (λ (a : ArtifactRecord). a.id) p.artifacts) artifact_id))
        (plain "duplicate source artifact ID")
    ok (record p {
      artifacts = p.artifacts ++ record { id = artifact_id; kind = source; byte_len = length } ∷ [];
    })

  -- `self.path.parent().expect(..).join("llvm")`
  abbrev pub llvm_directory : Result Error (List Component)
  llvm_directory = elim (parent (components path)) [
    | none ↦ err (panicked "a manifest path inside its attempt directory")
    | some directory ↦ ok (directory ++ normal (codes "llvm") ∷ [])
  ]

  abbrev is_some {ℓ} : {A : Type ℓ} → Option A → Bool
  is_some none = false
  is_some (some _) = true

  abbrev is_parent : List Component → Option (List Component) → Bool
  is_parent directory none = false
  is_parent directory (some actual) = components_eq.beq actual directory

  -- The end of `read_expected_module`.
  unfoldable pub expect_module : Configuration → Text → FilePath → Progress → Result Error Progress
  unfolding components contains
  expect_module configuration name file p = do
    require (not (is_some configuration.unsupported)) (plain "unsupported LLVM with a module")
    directory ← llvm_directory
    require
        (not (is_empty name)
          && is_parent directory (parent (components file))
          && is_some (file_name (components file)))
        (shows_text "expected bitcode must be an immediate private LLVM file" file)
    require
        (not (contains (map (λ (m : ExpectedModule). m.name) p.modules) name)
          && not (
              contains (map (λ (m : ExpectedModule). components m.path) p.modules)
                (components file)))
        (plain "duplicate expected module or path")
    ok (record p { modules = p.modules ++ record { name = name; path = file } ∷ [] })

  unfoldable pub lto_of : ℕ → Result Error LlvmLto
  lto_of code =
      if code == lto_off
      then ok off
      else if code == lto_local_thin
      then ok local_thin
      else if code == lto_cross_crate_thin
      then ok cross_crate_thin
      else if code == lto_fat
      then ok fat
      else rejected (shows_number "LTO" code)

  unfoldable pub unsupported_of : ℕ → Result Error (Option UnsupportedLlvmConfiguration)
  unsupported_of code =
      if code == llvm_supported
      then ok none
      else if code == llvm_unsupported_incremental
      then ok (some incremental)
      else if code == llvm_unsupported_cross_crate_thin
      then ok (some cross_crate_thin_lto)
      else if code == llvm_unsupported_fat
      then ok (some fat_lto)
      else if code == llvm_unsupported_linker_plugin
      then ok (some linker_plugin_lto)
      else if code == llvm_unsupported_other_backend
      then ok (some other_backend)
      else if code == llvm_unsupported_unverified_compiler
      then ok (some unverified_compiler)
      else rejected (shows_number "unsupported configuration" code)

  unfoldable pub unavailable_of : ℕ → Result Error SourceAvailability
  unavailable_of code =
      if code == source_nonlocal
      then ok (unavailable nonlocal)
      else if code == source_unloaded
      then ok (unavailable unloaded)
      else if code == source_generated
      then ok (unavailable generated)
      else if code == source_unsupported_span
      then ok (unavailable unsupported_span)
      else if code == source_outside_package
      then ok (unavailable outside_package)
      else rejected (shows_number "source availability" code)

-- One entry of the map as a record.
abbrev pub instance_of : Entry → Checked InstanceRecord
instance_of (key, v) = do
  definition ← DefinitionRecord.new key.definition_crate key.definition_path
  InstanceRecord.new definition key.display_name key.raw_symbol v.placements v.source

unfoldable pub assemble_instances : List Entry → Result Error (List InstanceRecord)
assemble_instances [] = ok []
assemble_instances (entry ∷ entries) = do
  first ← map_err invalid_record (instance_of entry)
  rest ← assemble_instances entries
  ok (first ∷ rest)

-- What `read` returns behind the end record.
unfoldable pub complete : Configuration → Progress → Result Error CompilerManifest
unfolding assemble_instances
complete configuration p = do
  instances ← assemble_instances p.placements
  ok (record {
    instances = instances;
    artifacts = p.artifacts;
    configuration = configuration;
    modules = p.modules;
  })
