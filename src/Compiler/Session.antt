-- ===== src/Compiler/Session.antt =====
-- crates/cargo-optic-compiler/rustc-driver/analysis.rs: the calls of the writer in one analysis, in
-- order; and what the decoder makes of them, said of the records and not of their bytes.
pub mod Fields
pub mod Reading
pub mod Writing
pub mod RoundTrip
use optic.Prelude.{
  ℕ, ◌≤◌, ◌≡◌, ◌≢◌, String, Bool, true, false, Option, none, some, List, [], ◌∷◌, ◌++◌, Result, ok,
  err, map, map_err, All, ◌==◌, if◌then◌else◌,
}
use optic.Prelude.Text.{Text, codes}
use optic.Records.ByteRange
use optic.Records.Decimal.{u64_max}
use optic.Records.PlacementRecord
use optic.Records.PlacementRecord.{PlacementRecord}
use optic.Records.LlvmProvenance.{LlvmLto}
use optic.Records.SourceRecord
use optic.Records.SourceRecord.{SourceAvailability}
use optic.Records.Validation.{FilePath}
use optic.Compiler.{Error, Message, invalid_record}
use optic.Compiler.Protocol.{u32_max, llvm_supported}
use optic.Compiler.Format.{IsString, and_then}
use optic.Compiler.Writer.{
  FileSystem, ManifestWriter, Write, WriteError, next, ◌>>◌, done, ConcreteInstance, MonoItemData,
  SourceSpan, Source, Lto, available, unavailable, linkage_name, visibility_name, optimization_name,
  write_placement, write_configuration, write_source_file, write_module, create, finish,
}
use optic.Compiler.Writer
use optic.Compiler.Manifest
use optic.Compiler.Manifest.{
  InstanceKey, CompilerManifest, Progress, no_records, add_placement, declare_source_file,
  expect_module, unsupported_of, unavailable_of, complete,
}

-- The calls of the writer behind the configuration.
pub data Record : Type 0 where
  placement : ConcreteInstance → Text → MonoItemData → Source → Record
  source_file : ℕ → ℕ → Record
  expected_module : Text → FilePath → Record

-- A function of a codegen unit, with the snapshots that `capture` writes for it, and its source.
pub record FunctionItem : Type 0 where
  pub concrete : ConcreteInstance
  pub placement_data : MonoItemData
  pub new_files : List (ℕ × ℕ)
  pub origin : Source

pub data MonoItem : Type 0 where
  function : FunctionItem → MonoItem
  other : MonoItem

-- A codegen unit, with the path that rustc names its bitcode file.
pub record CodegenUnit : Type 0 where
  pub name : Text
  pub bitcode : FilePath
  pub items : List MonoItem

-- `Configuration::extension`
unfoldable pub extension : Writer.Configuration → Option Text
extension configuration =
    if configuration.unsupported == llvm_supported
    then elim configuration.lto [
      | Lto.off ↦ some (codes "bc")
      | Lto.thin_local ↦ some (codes "thin-lto-after-pm.bc")
      | _ ↦ none
    ]
    else none

abbrev pub file_records : List (ℕ × ℕ) → List Record
file_records = map (λ file. source_file file.0 file.1)

-- `write_function_placements`
unfoldable pub item_records : Text → List MonoItem → List Record
item_records unit [] = []
item_records unit (other ∷ items) = item_records unit items
item_records unit (function item ∷ items) =
    file_records item.new_files
    ++ placement item.concrete unit item.placement_data item.origin ∷ item_records unit items

abbrev pub module_records : Option Text → CodegenUnit → List Record
module_records none unit = []
module_records (some _) unit = expected_module unit.name unit.bitcode ∷ []

-- The loop of `collect`
unfoldable pub unit_records : Writer.Configuration → List CodegenUnit → List Record
unfolding extension item_records
unit_records configuration [] = []
unit_records configuration (unit ∷ units) =
    module_records (extension configuration) unit
    ++ (item_records unit.name unit.items ++ unit_records configuration units)

module _ (fs : FileSystem) where
  abbrev pub write_record : Record → Write
  write_record (placement concrete unit item origin) = write_placement fs concrete unit item origin
  write_record (source_file id byte_length) = write_source_file fs id byte_length
  write_record (expected_module name path) = write_module fs name path

  abbrev pub write_records : List Record → Write
  write_records [] = done
  write_records (r ∷ rs) = write_record r >> write_records rs

  unfoldable pub collect : Writer.Configuration → List CodegenUnit → Write
  unfolding write_configuration unit_records
  collect configuration units = do
    write_configuration fs configuration
    write_records (unit_records configuration units)

  -- `run`: the manifest is created, filled by the analysis, and finished.
  unfoldable pub write_manifest :
      FilePath
      → FilePath
      → Result Message Text
      → Writer.Configuration
      → List CodegenUnit
      → Result WriteError ManifestWriter
  unfolding create collect finish
  write_manifest path temporary_path marker configuration units =
      next (create fs path temporary_path marker) (collect configuration units >> finish fs)

-- What is written is within the types of the source: strings are UTF-8 with a length in `u32`,
-- numbers fit their width, and a reason is not the code of available source.
abbrev pub IsSource : Source → Type 0
IsSource (available span) =
    (span.artifact ≤ u64_max)
    × (span.start ≤ u64_max)
    × (span.length ≤ u64_max)
    × IsString span.display_path
    × (span.starting_line ≤ u64_max)
IsSource (unavailable reason) = (reason ≤ u32_max) × (reason ≢ 0)

pub record IsInstance (i : ConcreteInstance) : Type 0 where
  pub definition_crate : IsString i.definition_crate
  pub definition_path : IsString i.definition_path
  pub display_name : IsString i.display_name
  pub raw_symbol : IsString i.raw_symbol

abbrev pub IsRecord : Record → Type 0
IsRecord (placement concrete unit item origin) =
    IsInstance concrete × IsString unit × (item.size_estimate ≤ u64_max) × IsSource origin
IsRecord (source_file id byte_length) = (id ≤ u64_max) × (byte_length ≤ u64_max)
IsRecord (expected_module name path) = IsString name × IsString path

pub record IsConfiguration (c : Writer.Configuration) : Type 0 where
  pub backend : IsString c.backend
  pub target : IsString c.target
  pub codegen_units : c.codegen_units ≤ u32_max
  pub unsupported : c.unsupported ≤ u32_max

abbrev pub IsItem : Text → MonoItem → Type 0
IsItem unit other = Unit
IsItem unit (function item) =
    All (λ file. IsRecord (source_file file.0 file.1)) item.new_files
    × IsRecord (placement item.concrete unit item.placement_data item.origin)

abbrev pub IsUnit : CodegenUnit → Type 0
IsUnit unit = IsString unit.name × IsString unit.bitcode × All (IsItem unit.name) unit.items

abbrev pub key_of : ConcreteInstance → InstanceKey
key_of i = record {
  definition_crate = i.definition_crate;
  definition_path = i.definition_path;
  display_name = i.display_name;
  raw_symbol = i.raw_symbol;
}

abbrev pub lto_of_session : Lto → LlvmLto
lto_of_session Lto.off = LlvmLto.off
lto_of_session Lto.thin_local = LlvmLto.local_thin
lto_of_session Lto.thin = LlvmLto.cross_crate_thin
lto_of_session Lto.fat = LlvmLto.fat

abbrev pub placement_of : Text → MonoItemData → Result Error PlacementRecord
placement_of unit item = map_err invalid_record (
    PlacementRecord.new unit (linkage_name item.linkage) (visibility_name item.visibility)
      item.inlined item.size_estimate)

abbrev pub range_of : SourceSpan → Result Error ByteRange.ByteRange
range_of span = map_err invalid_record (ByteRange.new span.start span.length)

abbrev pub record_of : SourceSpan → ByteRange.ByteRange → Result Error SourceRecord.SourceRecord
record_of span range =
    map_err invalid_record (
      SourceRecord.new (record { value = span.artifact }) range span.display_path
        span.starting_line)

module _ (path : FilePath) where
  abbrev pub source_of : Source → Result Error SourceAvailability
  source_of (unavailable reason) = unavailable_of path reason
  source_of (available span) =
      and_then (range_of span)
        λ range. and_then (record_of span range) (λ s. ok (SourceAvailability.available s))

  -- The configuration of the manifest.
  abbrev pub configuration_of : Writer.Configuration → Result Error Manifest.Configuration
  configuration_of c = and_then (unsupported_of path c.unsupported) λ unsupported. ok (record {
    backend = c.backend;
    target = c.target;
    optimization = optimization_name c.optimization;
    lto = lto_of_session c.lto;
    incremental = c.incremental;
    linker_plugin = c.linker_plugin;
    codegen_units = c.codegen_units;
    unsupported = unsupported;
  })

  -- What a record does to what was read before it.
  abbrev pub accept : Manifest.Configuration → Record → Progress → Result Error Progress
  accept c (placement concrete unit item origin) p = and_then (placement_of unit item) λ record_.
      and_then (source_of origin) λ source_. add_placement path (key_of concrete) record_ source_ p
  accept c (source_file id byte_length) p = declare_source_file path id byte_length p
  accept c (expected_module name file) p = expect_module path c name file p

  abbrev pub accept_all : Manifest.Configuration → List Record → Progress → Result Error Progress
  accept_all c [] p = ok p
  accept_all c (r ∷ rs) p = and_then (accept c r p) (accept_all c rs)

  -- The manifest that an analysis stands for, without the bytes between.
  unfoldable pub manifest_of :
      Writer.Configuration → List CodegenUnit → Result Error CompilerManifest
  unfolding unit_records unsupported_of unavailable_of add_placement declare_source_file
      expect_module complete
  manifest_of configuration units =
      and_then (configuration_of configuration)
        λ c. and_then (accept_all c (unit_records configuration units) no_records) (complete c)
