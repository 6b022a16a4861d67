-- ===== src/Compiler/Artifacts.antt =====
-- crates/cargo-optic-compiler/src/artifacts.rs: the modules that the driver expects become textual
-- artifacts. The processes that run, the file system, and the texts of errors are given by an
-- interface; of a file it says what it is when it is inspected, after the process that writes it.
pub mod Versions
pub mod Complete
pub mod Identifiers
use optic.Prelude.{
  ℕ, ◌+◌, Bool, true, false, not, ◌&&◌, ◌||◌, Option, none, some, List, [], ◌∷◌, ◌++◌, Result, ok,
  err, ◌>>=◌, ◌>>◌, ensure, map_err, ok_or, ltb, leb, ◌==◌, if◌then◌else◌,
}
use optic.Prelude.Text.{Text, text_beq, codes}
use optic.Records.Artifact.{ArtifactId, ArtifactRecord, llvm, file_name}
use optic.Records.ByteRange.{checked_add}
use optic.Records.CompilerIdentity.{CompilerIdentity}
use optic.Records.InstanceRecord.{InstanceRecord}
use optic.Records.LlvmDefinitionRecord.{LlvmDefinitionRecord}
use optic.Records.LlvmModuleRecord
use optic.Records.LlvmModuleRecord.{
  LlvmModuleRecord, LlvmCollection, LlvmStage, UnsupportedLlvmConfiguration, collected,
  not_captured, no_lto_optimized, local_thin_lto_post_pass_manager,
}
use optic.Records.LlvmProvenance
use optic.Records.LlvmProvenance.{LlvmProvenance, LlvmLto, off, local_thin}
use optic.Records.Validation.{FilePath}
use optic.Store.{IoError, other, Metadata, is_file}
use optic.LlvmIndex.Scanner.{index}
use optic.LlvmIndex.Stream.{Error as IndexError}
use optic.Compiler.{
  Error, compiler_environment, filesystem, start_process, process_failed, invalid_record, plain,
  shows_text,
}
use optic.Compiler.Artifacts.Versions.{compiler_version, disassembler_version}
use optic.Compiler.Manifest.{CompilerManifest, Configuration, ExpectedModule}
use optic.Compiler.Protocol.{llvm_recipe_revision}

-- What a process gives, its output as text (`String::from_utf8_lossy`).
pub record Output : Type 0 where
  pub success : Bool
  pub status : Text
  pub stdout : Text
  pub stderr : Text

-- `open_file` gives the bytes of a file, with how reading them ends.
pub record Tools : Type 0 where
  pub output : FilePath → List Text → Result IoError Output
  pub symlink_metadata : FilePath → Result IoError Metadata
  pub is_regular : FilePath → Bool
  pub open_file : FilePath → Result IoError (List ℕ × Option Text)
  pub show_error : Error → Text
  pub show_index_error : IndexError → Text

pub record CollectedEvidence : Type 0 where
  pub instances : List InstanceRecord
  pub artifacts : List ArtifactRecord
  pub provenance : LlvmProvenance
  pub llvm : LlvmCollection

-- `Path::join` for Unix.
abbrev pub join_onto : FilePath → FilePath → FilePath
join_onto [] name = name
join_onto (c ∷ []) name = c ∷ (if c == 47 then name else 47 ∷ name)
join_onto (c ∷ d ∷ path) name = c ∷ join_onto (d ∷ path) name

abbrev pub join : FilePath → FilePath → FilePath
join path [] = join_onto path []
join path (c ∷ name) = if c == 47 then c ∷ name else join_onto path (c ∷ name)

abbrev pub option_text_beq : Option Text → Option Text → Bool
option_text_beq none none = true
option_text_beq (some a) (some b) = text_beq a b
option_text_beq _ _ = false

unfoldable pub stage_of : LlvmLto → Result Error LlvmStage
stage_of off = ok no_lto_optimized
stage_of local_thin = ok local_thin_lto_post_pass_manager
stage_of _ = err (compiler_environment (plain "collected LLVM requires no LTO or local ThinLTO"))

-- `max` of the identifiers.
unfoldable pub max_id : List ArtifactRecord → Option ℕ
max_id [] = none
max_id (a ∷ artifacts) =
    let rest = max_id artifacts in
    elim rest as (λ _. Option ℕ) [
      | none ↦ some a.id.value
      | some m ↦ some (if ltb m a.id.value then a.id.value else m)
    ]

abbrev pub next_after : Option ℕ → Result Error ℕ
next_after none = ok 0
next_after (some id) =
    ok_or (checked_add id 1)
      (compiler_environment (plain "artifact IDs must leave space for LLVM modules"))

unfoldable pub first_id : List ArtifactRecord → Result Error ℕ
unfolding max_id
first_id artifacts = next_after (max_id artifacts)

module _ (tools : Tools) where
  unfoldable pub run : FilePath → List Text → Result Error Output
  run program arguments = do
    output ← map_err (start_process program) (tools.output program arguments)
    ensure output.success (process_failed program output.status (some output.stderr))
    ok output

  unfoldable pub regular_file : FilePath → Result Error Metadata
  regular_file path = do
    metadata ← map_err (filesystem "inspect compiler artifact" path) (tools.symlink_metadata path)
    ensure (is_file metadata.kind) (
        filesystem "read regular compiler artifact" path
          (other (codes "artifact must be a regular file")))
    ok metadata

  module _ (directory disassembler : FilePath) (stage : LlvmStage) where
    abbrev pub artifact_path : ArtifactId → FilePath
    artifact_path id = join directory (file_name (record { id = id; kind = llvm; byte_len = 0 }))

    -- One module of the loop of `collect_modules`, once it has its identifier.
    unfoldable pub materialize :
        ArtifactId → ExpectedModule → Result Error (LlvmModuleRecord × ArtifactRecord)
    unfolding run regular_file file_name index LlvmModuleRecord.new
    materialize id module_ = do
      let path = artifact_path id
      _ ←
          map_err
            (λ e.
              filesystem "disassemble expected bitcode module" module_.path
                (other (tools.show_error e)))
            (run disassembler (module_.path ∷ codes "-o" ∷ path ∷ []))
      metadata ← regular_file path
      opened ← map_err (filesystem "open optimized LLVM artifact" path) (tools.open_file path)
      definitions ←
          map_err
            (λ e.
              filesystem "index optimized LLVM artifact" path (other (tools.show_index_error e)))
            (index opened.0 opened.1)
      indexed ← map_err invalid_record (LlvmModuleRecord.new id module_.name stage definitions)
      ok (indexed, record { id = id; kind = llvm; byte_len = metadata.len })

    -- The loop of `collect_modules`, with the next identifier.
    unfoldable pub materialize_each :
        List ExpectedModule
        → ℕ
        → List LlvmModuleRecord
        → List ArtifactRecord
        → Result Error (List LlvmModuleRecord × List ArtifactRecord)
    unfolding materialize regular_file
    materialize_each [] next modules artifacts = ok (modules, artifacts)
    materialize_each (module_ ∷ expected) next modules artifacts = do
      metadata ← regular_file module_.path
      ensure (not (metadata.len == 0))
          (compiler_environment (shows_text "expected bitcode must not be empty" module_.path))
      following ←
          ok_or (checked_add next 1) (compiler_environment (plain "artifact IDs must fit in u64"))
      made ← materialize (record { value = next }) module_
      materialize_each expected following (modules ++ made.0 ∷ []) (artifacts ++ made.1 ∷ [])

  abbrev pub disassembler_of : CompilerIdentity → FilePath
  disassembler_of compiler =
      join (join (join compiler.sysroot (codes "lib/rustlib")) compiler.host) (codes "bin/llvm-dis")

  abbrev pub is_supported : LlvmProvenance → Bool
  unfolding text_beq
  is_supported p = text_beq p.backend (codes "llvm") && not (p.incremental || p.linker_plugin_lto)

  unfoldable pub collect_modules :
      List ExpectedModule
      → CompilerIdentity
      → FilePath
      → LlvmProvenance
      → List ArtifactRecord
      → Result Error (List LlvmModuleRecord × List ArtifactRecord)
  unfolding stage_of run disassembler_version text_beq first_id materialize_each
  collect_modules expected compiler directory provenance artifacts = do
    ensure (is_supported provenance)
        (compiler_environment (plain "collected LLVM requires a supported configuration"))
    stage ← stage_of provenance.lto
    let disassembler = disassembler_of compiler
    ensure (tools.is_regular disassembler)
        (compiler_environment (shows_text "optimized LLVM collection requires" disassembler))
    output ← run disassembler (codes "--version" ∷ [])
    let actual = disassembler_version output.stdout
    ensure (option_text_beq actual provenance.llvm_version)
        (compiler_environment (plain "llvm-dis must match the compiler's LLVM version"))
    next ← first_id artifacts
    materialize_each directory disassembler stage expected next [] artifacts

  -- The loop over the source snapshots.
  unfoldable pub check_snapshots : FilePath → List ArtifactRecord → Result Error (Unit {0})
  unfolding regular_file file_name
  check_snapshots directory [] = ok tt
  check_snapshots directory (artifact ∷ artifacts) = do
    let path = join directory (file_name artifact)
    metadata ← regular_file path
    ensure (metadata.len == artifact.byte_len)
        (compiler_environment (shows_text "source snapshot length" path))
    check_snapshots directory artifacts

  unfoldable pub version_of : Configuration → CompilerIdentity → Result Error (Option Text)
  unfolding text_beq run compiler_version
  version_of configuration compiler =
      if text_beq configuration.backend (codes "llvm")
      then (do
        output ← run compiler.rustc (codes "-vV" ∷ [])
        version ←
            ok_or (compiler_version output.stdout)
              (compiler_environment (plain "the LLVM backend requires an exact LLVM version"))
        ok (some version))
      else ok none

  -- The end of `collect`: no modules where the configuration is not supported.
  unfoldable pub finish :
      CompilerManifest
      → CompilerIdentity
      → FilePath
      → LlvmProvenance
      → Option UnsupportedLlvmConfiguration
      → Result Error CollectedEvidence
  unfolding collect_modules
  finish manifest compiler directory provenance (some reason) = ok (record {
    instances = manifest.instances;
    artifacts = manifest.artifacts;
    provenance = provenance;
    llvm = not_captured reason;
  })
  finish manifest compiler directory provenance none = do
    made ← collect_modules manifest.modules compiler directory provenance manifest.artifacts
    ok (record {
      instances = manifest.instances;
      artifacts = made.1;
      provenance = provenance;
      llvm = collected made.0;
    })

  unfoldable pub collect :
      CompilerManifest → CompilerIdentity → FilePath → Result Error CollectedEvidence
  unfolding version_of check_snapshots finish LlvmProvenance.new
  collect manifest compiler directory = do
    let configuration = manifest.configuration
    version ← version_of configuration compiler
    provenance ← map_err invalid_record (
        LlvmProvenance.new configuration.backend version configuration.target
          configuration.optimization configuration.lto configuration.incremental
          configuration.linker_plugin configuration.codegen_units llvm_recipe_revision)
    check_snapshots directory manifest.artifacts
    finish manifest compiler directory provenance configuration.unsupported
