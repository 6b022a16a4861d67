-- ===== src/Compiler/Decoder.antt =====
-- crates/cargo-optic-compiler/src/manifest/decoder.rs: the records of the manifest, in the order of
-- the wire format. The decoder's path and marker are parameters.
use optic.Prelude.{
  ℕ, zero, suc, ◌≡◌, String, Bool, true, false, Option, none, some, List, [], Result, ok, err,
  map_err, length, list_beq, ensure, ◌==◌, if◌then◌else◌, arith,
}
pub mod Sound
pub mod Ends
use optic.Prelude.Text.{Text, text_beq}
use optic.Records.Artifact.{ArtifactId}
use optic.Records.ByteRange
use optic.Records.PlacementRecord
use optic.Records.PlacementRecord.{PlacementRecord}
use optic.Records.SourceRecord
use optic.Records.SourceRecord.{SourceAvailability, available}
use optic.Records.Validation.{FilePath}
use optic.Store.{IoError}
use optic.Compiler.{Error, filesystem, invalid_record, plain, shows_number, shows_text}
use optic.Compiler.Protocol.{
  manifest_magic, protocol_version, end_record, placement_record, configuration_record,
  source_file_record, module_record, source_available, llvm_recipe_revision,
}
use optic.Compiler.Wire.{
  Input, Decode, Failure, exhausted, pure, lift, invalid, continue, ◌>>=◌, ◌>>◌, read_exact,
  read_u32, read_u64, read_bool, read_string, require_end_of_file,
}
use optic.Compiler.Manifest.{
  InstanceKey, InstancePlacements, Configuration, CompilerManifest, Progress, no_records, require,
  add_placement, declare_source_file, expect_module, lto_of, unsupported_of, unavailable_of,
  complete,
}

module _ (path : FilePath) where
  unfoldable pub read_header : Text → Decode (Unit {0})
  unfolding read_exact read_u32 read_string
  read_header marker = do
    magic ← read_exact path 16 "manifest header"
    lift (
        require path (text_beq magic manifest_magic)
          (shows_text "manifest header must match Cargo Optic" magic))
    version ← read_u32 path "protocol version"
    lift (
        require path (version == protocol_version)
          (shows_number "protocol version must be 3" version))
    actual ← read_string path "selected marker"
    lift (
        require path (text_beq actual marker)
          (shows_text "selected marker must match this analysis" actual))

  unfoldable pub read_configuration : Decode Configuration
  unfolding read_u32 read_string read_bool lto_of unsupported_of
  read_configuration = do
    kind ← read_u32 path "configuration record kind"
    lift (
        require path (kind == configuration_record)
          (shows_number "the first record must be configuration" kind))
    backend ← read_string path "codegen backend"
    target ← read_string path "effective target"
    optimization ← read_string path "optimization level"
    lto_code ← read_u32 path "effective LTO"
    lto ← lift (lto_of path lto_code)
    incremental ← read_bool path "incremental compilation"
    linker_plugin ← read_bool path "linker-plugin LTO"
    codegen_units ← read_u32 path "configured codegen units"
    recipe ← read_u32 path "LLVM recipe revision"
    lift (
        require path (recipe == llvm_recipe_revision)
          (shows_number "LLVM recipe revision must match this collector" recipe))
    unsupported_code ← read_u32 path "unsupported LLVM configuration"
    unsupported ← lift (unsupported_of path unsupported_code)
    pure (record {
      backend = backend;
      target = target;
      optimization = optimization;
      lto = lto;
      incremental = incremental;
      linker_plugin = linker_plugin;
      codegen_units = codegen_units;
      unsupported = unsupported;
    })

  unfoldable pub read_placement : Decode (InstanceKey × PlacementRecord)
  unfolding read_string read_bool read_u64
  read_placement = do
    definition_crate ← read_string path "definition crate"
    definition_path ← read_string path "definition path"
    display_name ← read_string path "display name"
    raw_symbol ← read_string path "raw symbol"
    codegen_unit ← read_string path "codegen unit"
    linkage ← read_string path "linkage"
    visibility ← read_string path "visibility"
    local_copy ← read_bool path "local copy"
    size_estimate ← read_u64 path "size estimate"
    placement ← lift (
        map_err invalid_record
          (PlacementRecord.new codegen_unit linkage visibility local_copy size_estimate))
    pure (
      record {
        definition_crate = definition_crate;
        definition_path = definition_path;
        display_name = display_name;
        raw_symbol = raw_symbol;
      },
      placement,
    )

  -- The fields of available source.
  unfoldable pub read_source_record : Decode SourceAvailability
  unfolding read_u64 read_string
  read_source_record = do
    artifact ← read_u64 path "source artifact"
    start ← read_u64 path "source start"
    length ← read_u64 path "source length"
    display_path ← read_string path "source display path"
    line ← read_u64 path "source starting line"
    range ← lift (map_err invalid_record (ByteRange.new start length))
    source ← lift (
        map_err invalid_record
          (SourceRecord.new (record { value = artifact }) range display_path line))
    pure (available source)

  abbrev pub source_behind : Bool → ℕ → Decode SourceAvailability
  source_behind true code = read_source_record
  source_behind false code = lift (unavailable_of path code)

  unfoldable pub read_source : Decode SourceAvailability
  unfolding read_u32 read_source_record unavailable_of
  read_source = do
    code ← read_u32 path "source availability"
    source_behind (code == source_available) code

  unfoldable pub read_instance_placement : Progress → Decode Progress
  unfolding read_placement read_source add_placement
  read_instance_placement p = do
    fields ← read_placement
    source ← read_source
    lift (add_placement path fields.0 fields.1 source p)

  unfoldable pub read_source_file : Progress → Decode Progress
  unfolding read_u64 declare_source_file
  read_source_file p = do
    id ← read_u64 path "source artifact ID"
    length ← read_u64 path "source byte length"
    lift (declare_source_file path id length p)

  unfoldable pub read_expected_module : Configuration → Progress → Decode Progress
  unfolding read_string expect_module
  read_expected_module configuration p = do
    name ← read_string path "compiler module"
    file ← read_string path "expected bitcode path"
    lift (expect_module path configuration name file p)

  -- The arms of the loop behind the one of the end record.
  unfoldable pub read_record : Configuration → ℕ → Progress → Decode Progress
  unfolding read_instance_placement read_source_file read_expected_module
  read_record configuration kind p =
      if kind == placement_record
      then read_instance_placement p
      else if kind == source_file_record
      then read_source_file p
      else if kind == module_record
      then read_expected_module configuration p
      else lift (invalid path (shows_number "record kind" kind))

  -- The end record, or another one and then the next round.
  abbrev pub on_kind :
      Configuration → ℕ → Progress → (Progress → Decode Progress) → Bool → Decode Progress
  on_kind configuration kind p next true = require_end_of_file path >>= λ _. pure p
  on_kind configuration kind p next false = read_record configuration kind p >>= next

  unfoldable pub read_records : Configuration → ℕ → Progress → Decode Progress
  unfolding read_u32 read_record require_end_of_file
  read_records configuration zero p s = err exhausted
  read_records configuration (suc fuel) p s = continue (read_u32 path "record kind" s) λ kind.
      on_kind configuration kind p (λ q. read_records configuration fuel q) (kind == end_record)

  -- Each record takes a byte at least.
  abbrev pub read_all : Configuration → Decode Progress
  read_all configuration s = read_records configuration (suc (length s.bytes)) no_records s

  unfoldable pub read_body : Text → Decode CompilerManifest
  unfolding read_header read_configuration read_records complete
  read_body marker = do
    read_header marker
    configuration ← read_configuration
    p ← read_all configuration
    lift (complete configuration p)

  -- `read_manifest` is given the result of opening the file.
  unfoldable pub read_manifest : Result IoError Input → Text → Result Failure CompilerManifest
  unfolding read_body
  read_manifest (err e) marker = err (Failure.failed (filesystem "open compiler manifest" path e))
  read_manifest (ok file) marker = elim (read_body marker file) [
    | ok (manifest, _) ↦ ok manifest
    | err failure ↦ err failure
  ]
