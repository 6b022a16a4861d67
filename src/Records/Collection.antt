-- ===== src/Records/Collection.antt =====
-- crates/cargo-optic-records/src/instance_manifest.rs: references into artifacts, and the checks on
-- collected LLVM modules. The `HashMap` of artifacts is the list of artifacts, searched by
-- identifier; a `HashSet` is the list of what was inserted.
pub mod Valid
pub mod Modules
pub mod Consistent
use optic.Prelude.{
  ℕ, Bool, true, false, not, ◌&&◌, ◌||◌, Option, none, some, List, [], ◌∷◌, ◌++◌, map, ◌≡◌, ok, err,
  ◌>>=◌, ◌>>◌, ensure, ok_or, for_each, ltb, leb, ◌==◌, if◌then◌else◌, Eq, key_eq, list_beq,
  list_beq_iff, contains, first_duplicate,
}
use optic.Prelude.Text.{Text, text_eq, text_beq, codes}
use optic.Records.Artifact.{ArtifactId, artifact_id_eq, ArtifactKind, kind_beq, ArtifactRecord}
use optic.Records.ByteRange
use optic.Records.ByteRange.{ByteRange}
use optic.Records.CaptureId.{CaptureId}
use optic.Records.DefinitionRecord.{DefinitionRecord}
use optic.Records.Error.{
  Checked, unsupported_format, invalid_field, duplicate_artifact, duplicate_instance,
  unknown_artifact, outside_artifact, unsupported_collection, duplicate_module, stage_disagrees,
  missing_module, without_module,
}
use optic.Records.InstanceRecord.{InstanceRecord}
use optic.Records.LlvmDefinitionRecord.{LlvmDefinitionRecord}
use optic.Records.LlvmModuleRecord.{
  LlvmStage, no_lto_optimized, local_thin_lto_post_pass_manager, LlvmModuleRecord, LlvmCollection,
  collected, not_captured,
}
use optic.Records.LlvmProvenance.{LlvmLto, off, local_thin, LlvmProvenance}
use optic.Records.PlacementRecord.{PlacementRecord}
use optic.Records.SourceRecord.{SourceAvailability, available, unavailable}

abbrev pub find_artifact : List ArtifactRecord → ArtifactId → Option ArtifactRecord
find_artifact [] id = none
find_artifact (a ∷ rest) id = if artifact_id_eq.beq a.id id then some a else find_artifact rest id

unfoldable pub validate_artifact_range :
    List ArtifactRecord → ArtifactId → ArtifactKind → ByteRange → Checked (Unit {0})
validate_artifact_range artifacts id kind range = do
  artifact ←
      ok_or (find_artifact artifacts id)
        (invalid_field "artifact reference" (unknown_artifact id.value))
  ensure (not (not (kind_beq artifact.kind kind) || ltb artifact.byte_len (ByteRange.end range)))
      (invalid_field "artifact range" (outside_artifact id.value artifact.byte_len))

-- The `matches!` on a stage and the effective link-time optimization.
abbrev pub stage_agrees : LlvmStage → LlvmLto → Bool
stage_agrees no_lto_optimized off = true
stage_agrees local_thin_lto_post_pass_manager local_thin = true
stage_agrees _ _ = false

abbrev pub lto_supported : LlvmLto → Bool
lto_supported off = true
lto_supported local_thin = true
lto_supported _ = false

abbrev pub is_none {ℓ} : {A : Type ℓ} → Option A → Bool
is_none none = true
is_none (some _) = false

abbrev pub provenance_unsupported : LlvmProvenance → Bool
provenance_unsupported p =
    not (text_beq p.backend (codes "llvm"))
    || is_none p.llvm_version
    || p.incremental
    || p.linker_plugin_lto
    || not (lto_supported p.lto)

-- The modules that the loop below goes through.
abbrev pub collected_modules : LlvmProvenance → LlvmCollection → Checked (List LlvmModuleRecord)
collected_modules provenance (not_captured reason) = ok []
collected_modules provenance (collected modules) =
    if provenance_unsupported provenance
    then err (invalid_field "LLVM collection" unsupported_collection)
    else ok modules

unfoldable pub check_module :
    List ArtifactRecord → LlvmProvenance → LlvmModuleRecord → Checked (Unit {0})
unfolding ByteRange.new
check_module artifacts provenance m = do
  ensure (stage_agrees m.stage provenance.lto) (invalid_field "LLVM module stage" stage_disagrees)
  empty ← ByteRange.new 0 0
  validate_artifact_range artifacts m.artifact ArtifactKind.llvm empty
  for_each
      (λ (d : LlvmDefinitionRecord).
        validate_artifact_range artifacts m.artifact ArtifactKind.llvm d.range)
      m.definitions

-- The loop over the modules, with the module names and artifacts inserted so far.
unfoldable pub check_modules :
    List ArtifactRecord
    → LlvmProvenance
    → List Text
    → List ArtifactId
    → List LlvmModuleRecord
    → Checked (Unit {0})
check_modules artifacts provenance names ids [] = ok tt
check_modules artifacts provenance names ids (m ∷ rest) =
    let later =
      check_modules artifacts provenance (m.compiler_module ∷ names) (m.artifact ∷ ids) rest in
    if contains names m.compiler_module || contains ids m.artifact
    then err (invalid_field "LLVM modules" duplicate_module)
    else (check_module artifacts provenance m >> later)

abbrev pub placement_units : List InstanceRecord → List Text
placement_units [] = []
placement_units (i ∷ rest) =
    map (λ (p : PlacementRecord). p.codegen_unit) i.placements ++ placement_units rest

-- Every placement's codegen unit needs its module, if modules were collected.
abbrev pub check_placements : LlvmCollection → List Text → List Text → Checked (Unit {0})
check_placements (not_captured reason) names units = ok tt
check_placements (collected modules) names units =
    for_each
      (λ unit. ensure (contains names unit) (invalid_field "LLVM modules" (missing_module unit)))
      units

-- No LLVM artifact is without its module.
abbrev pub check_llvm_artifact : List ArtifactId → ArtifactRecord → Checked (Unit {0})
check_llvm_artifact ids a =
    ensure (not (kind_beq a.kind ArtifactKind.llvm && not (contains ids a.id)))
      (invalid_field "LLVM artifact" without_module)

unfoldable pub validate_llvm :
    List InstanceRecord → List ArtifactRecord → LlvmProvenance → LlvmCollection → Checked (Unit {0})
unfolding check_module check_modules
validate_llvm instances artifacts provenance llvm = do
  modules ← collected_modules provenance llvm
  check_modules artifacts provenance [] [] modules
  let names = map (λ (m : LlvmModuleRecord). m.compiler_module) modules
  let ids = map (λ (m : LlvmModuleRecord). m.artifact) modules
  check_placements llvm names (placement_units instances)
  for_each (check_llvm_artifact ids) artifacts
