-- ===== src/Records/LlvmModuleRecord.antt =====
-- crates/cargo-optic-records/src/llvm.rs: the modules of a collection
use optic.Prelude.{none, some, List, ok, err, ◌>>◌, first_duplicate, map}
use optic.Prelude.Text.{Text, text_eq}
use optic.Records.Error.{Checked, invalid_field, duplicate_symbol}
use optic.Records.Validation.{require_text}
use optic.Prelude.{[]}
use optic.Records.Artifact.{ArtifactId}
use optic.Records.LlvmDefinitionRecord.{LlvmDefinitionRecord}

pub data LlvmStage : Type 0 where
  no_lto_optimized local_thin_lto_post_pass_manager : LlvmStage

-- The loop that inserts each raw symbol into a `HashSet`.
abbrev pub require_distinct_symbols : List LlvmDefinitionRecord → Checked (Unit {0})
require_distinct_symbols xs =
    elim (first_duplicate [] (map (λ (x : LlvmDefinitionRecord). x.raw_symbol) xs)) [
      | none ↦ ok tt
      | some again ↦ err (invalid_field "LLVM module symbols" (duplicate_symbol again))
    ]

pub record LlvmModuleRecord : Type 0 where
  pub artifact : ArtifactId
  pub compiler_module : Text
  pub stage : LlvmStage
  pub definitions : List LlvmDefinitionRecord

unfoldable pub new :
    ArtifactId → Text → LlvmStage → List LlvmDefinitionRecord → Checked LlvmModuleRecord
new artifact compiler_module stage definitions = do
  require_text "LLVM compiler module" compiler_module
  require_distinct_symbols definitions
  ok (record {
    artifact = artifact;
    compiler_module = compiler_module;
    stage = stage;
    definitions = definitions;
  })

pub record RawLlvmModuleRecord : Type 0 where
  pub artifact : ArtifactId
  pub compiler_module : Text
  pub stage : LlvmStage
  pub definitions : List LlvmDefinitionRecord

unfoldable pub try_from : RawLlvmModuleRecord → Checked LlvmModuleRecord
unfolding new
try_from raw = new raw.artifact raw.compiler_module raw.stage raw.definitions

pub data UnsupportedLlvmConfiguration : Type 0 where
  incremental cross_crate_thin_lto fat_lto : UnsupportedLlvmConfiguration
  linker_plugin_lto other_backend unverified_compiler : UnsupportedLlvmConfiguration

pub data LlvmCollection : Type 0 where
  collected : List LlvmModuleRecord → LlvmCollection
  not_captured : UnsupportedLlvmConfiguration → LlvmCollection
