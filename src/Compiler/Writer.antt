-- ===== src/Compiler/Writer.antt =====
-- crates/cargo-optic-compiler/rustc-driver/manifest.rs: the writer of the manifest. What rustc hands
-- over are data; what the file system answers is a parameter.
use optic.Prelude.{
  ℕ, String, Bool, true, false, Option, none, some, List, [], ◌++◌, Result, ok, err, length, leb,
  if◌then◌else◌,
}
use optic.Prelude.Text.{Text, codes, text_beq}
use optic.Records.Decimal.{u64_max}
use optic.Records.Validation.{FilePath}
use optic.Store.{IoError}
use optic.LlvmIndex.Symbol.{is_utf8}
use optic.Compiler.{Message, plain, shows_number}
use optic.Compiler.Wire.{to_le_bytes}
use optic.Compiler.Protocol.{
  u32_max, end_record, placement_record, configuration_record, source_file_record, module_record,
  source_available, llvm_recipe_revision, lto_off, lto_local_thin, lto_cross_crate_thin, lto_fat,
  header,
}

-- `panicked` stands for a failed `expect`.
pub data WriteError : Type 0 where
  io : IoError → WriteError
  invalid_data : Message → WriteError
  panicked : String → WriteError

-- What the calls of the file system answer: `none` where they succeed. A write is answered by what
-- has been written and what is to be.
pub record FileSystem : Type 0 where
  pub create : FilePath → Option IoError
  pub write_all : List ℕ → List ℕ → Option IoError
  pub flush : List ℕ → Option IoError
  pub rename : FilePath → FilePath → Option IoError

-- `file` is what has been written to the open file, and `place` is where the file now stands.
pub record ManifestWriter : Type 0 where
  pub path : FilePath
  pub temporary_path : FilePath
  pub file : List ℕ
  pub place : FilePath

-- A step of the writer returns nothing but its state.
abbrev pub Write : Type 0
Write = ManifestWriter → Result WriteError ManifestWriter

abbrev pub next : Result WriteError ManifestWriter → Write → Result WriteError ManifestWriter
next (ok w) k = k w
next (err e) k = err e

infixl 5 ◌>>◌
abbrev pub ◌>>◌ : Write → Write → Write
(m >> k) w = next (m w) k

abbrev pub done : Write
done w = ok w

-- A check that writes nothing.
abbrev pub guard : Bool → WriteError → Write
guard true e w = ok w
guard false e w = err e

abbrev pub fallible : Option IoError → Write
fallible none w = ok w
fallible (some e) w = err (io e)

pub record ConcreteInstance : Type 0 where
  pub definition_crate : Text
  pub definition_path : Text
  pub display_name : Text
  pub raw_symbol : Text

pub data Linkage : Type 0 where
  available_externally common external_weak external internal : Linkage
  link_once_any link_once_odr weak_any weak_odr : Linkage

pub data Visibility : Type 0 where
  default hidden protected : Visibility

-- The fields of rustc's `MonoItemData` that are written.
pub record MonoItemData : Type 0 where
  pub linkage : Linkage
  pub visibility : Visibility
  pub inlined : Bool
  pub size_estimate : ℕ

pub record SourceSpan : Type 0 where
  pub artifact : ℕ
  pub start : ℕ
  pub length : ℕ
  pub display_path : FilePath
  pub starting_line : ℕ

pub data Source : Type 0 where
  available : SourceSpan → Source
  unavailable : ℕ → Source

pub data OptLevel : Type 0 where
  no less more aggressive size size_min : OptLevel

pub data Lto : Type 0 where
  off thin_local thin fat : Lto

pub record Configuration : Type 0 where
  pub backend : Text
  pub target : Text
  pub optimization : OptLevel
  pub lto : Lto
  pub incremental : Bool
  pub linker_plugin : Bool
  pub codegen_units : ℕ
  pub unsupported : ℕ

unfoldable pub linkage_name : Linkage → Text
linkage_name available_externally = codes "AvailableExternally"
linkage_name common = codes "Common"
linkage_name external_weak = codes "ExternalWeak"
linkage_name external = codes "External"
linkage_name internal = codes "Internal"
linkage_name link_once_any = codes "LinkOnceAny"
linkage_name link_once_odr = codes "LinkOnceODR"
linkage_name weak_any = codes "WeakAny"
linkage_name weak_odr = codes "WeakODR"

unfoldable pub visibility_name : Visibility → Text
visibility_name default = codes "Default"
visibility_name hidden = codes "Hidden"
visibility_name protected = codes "Protected"

unfoldable pub optimization_name : OptLevel → Text
optimization_name OptLevel.no = codes "0"
optimization_name less = codes "1"
optimization_name more = codes "2"
optimization_name aggressive = codes "3"
optimization_name size = codes "s"
optimization_name size_min = codes "z"

abbrev pub lto_code : Lto → ℕ
lto_code off = lto_off
lto_code thin_local = lto_local_thin
lto_code thin = lto_cross_crate_thin
lto_code fat = lto_fat

-- `u32::from`
abbrev pub bool_code : Bool → ℕ
bool_code false = 0
bool_code true = 1

module _ (fs : FileSystem) where
  unfoldable pub write_bytes : List ℕ → Write
  write_bytes bytes w =
      (fallible (fs.write_all w.file bytes) >> λ v. ok (record v { file = v.file ++ bytes })) w

  unfoldable pub write_u32 : ℕ → Write
  unfolding write_bytes to_le_bytes
  write_u32 value = write_bytes (to_le_bytes 4 value)

  unfoldable pub write_u64 : ℕ → Write
  unfolding write_bytes to_le_bytes
  write_u64 value = write_bytes (to_le_bytes 8 value)

  unfoldable pub write_string : Text → Write
  unfolding write_u32 write_bytes
  write_string value = do
    guard (leb (length value) u32_max)
        (invalid_data (shows_number "string length must fit in u32" (length value)))
    write_u32 (length value)
    write_bytes value

  -- `to_str().ok_or_else(..)?`
  abbrev pub require_utf8 : FilePath → String → Write
  require_utf8 path message = guard (is_utf8 path) (invalid_data (plain message))

  -- The `match source` of `write_placement`.
  unfoldable pub write_source : Source → Write
  unfolding write_u32 write_u64 write_string is_utf8
  write_source (available span) = do
    write_u32 source_available
    write_u64 span.artifact
    write_u64 span.start
    write_u64 span.length
    require_utf8 span.display_path "source display path must be UTF-8"
    write_string span.display_path
    write_u64 span.starting_line
  write_source (unavailable reason) = write_u32 reason

  -- The fields before the source.
  unfoldable pub write_fields : ConcreteInstance → Text → MonoItemData → Write
  unfolding write_u32 write_u64 write_string linkage_name visibility_name
  write_fields instance_ codegen_unit placement = do
    write_string instance_.definition_crate
    write_string instance_.definition_path
    write_string instance_.display_name
    write_string instance_.raw_symbol
    write_string codegen_unit
    write_string (linkage_name placement.linkage)
    write_string (visibility_name placement.visibility)
    write_u32 (bool_code placement.inlined)
    guard (leb placement.size_estimate u64_max) (
        invalid_data
          (shows_number "placement size estimate must fit in u64" placement.size_estimate))
    write_u64 placement.size_estimate

  unfoldable pub write_placement : ConcreteInstance → Text → MonoItemData → Source → Write
  unfolding write_u32 write_fields write_source
  write_placement instance_ codegen_unit placement source = do
    write_u32 placement_record
    write_fields instance_ codegen_unit placement
    write_source source

  unfoldable pub write_configuration : Configuration → Write
  unfolding write_u32 write_string optimization_name
  write_configuration configuration = do
    write_u32 configuration_record
    write_string configuration.backend
    write_string configuration.target
    write_string (optimization_name configuration.optimization)
    write_u32 (lto_code configuration.lto)
    write_u32 (bool_code configuration.incremental)
    write_u32 (bool_code configuration.linker_plugin)
    write_u32 configuration.codegen_units
    write_u32 llvm_recipe_revision
    write_u32 configuration.unsupported

  unfoldable pub write_source_file : ℕ → ℕ → Write
  unfolding write_u32 write_u64
  write_source_file id length = do write_u32 source_file_record; write_u64 id; write_u64 length

  unfoldable pub write_module : Text → FilePath → Write
  unfolding write_u32 write_string is_utf8
  write_module name path = do
    write_u32 module_record
    write_string name
    require_utf8 path "bitcode path must be UTF-8"
    write_string path

  abbrev pub header_bytes : Option (List ℕ) → Write
  header_bytes none w = err (panicked "the marker is a fixed-length analysis token")
  header_bytes (some bytes) w = write_bytes bytes w

  -- The sibling path with the extension `tmp`, and the environment variable of the marker, are
  -- arguments.
  unfoldable pub create :
      FilePath → FilePath → Result Message Text → Result WriteError ManifestWriter
  unfolding write_bytes header
  create path temporary_path marker =
      (do
        fallible (fs.create temporary_path)
        elim marker [
          | err message ↦ λ w. err (invalid_data message)
          | ok text ↦ header_bytes (header text)
        ])
        (record { path = path; temporary_path = temporary_path; file = []; place = temporary_path })

  -- `fs::rename`: the file moves if it stands at the first path.
  unfoldable pub rename : FilePath → FilePath → Write
  unfolding text_beq
  rename source destination w =
      (fallible (fs.rename source destination) >> λ v.
      ok (record v { place = if text_beq v.place source then destination else v.place }))
        w

  -- The writer at the end, once its file is closed.
  unfoldable pub finish : Write
  unfolding write_u32 rename
  finish = do
    write_u32 end_record
    (λ w. fallible (fs.flush w.file) w)
    (λ w. rename w.temporary_path w.path w)
