-- ===== src/Records/Collection/Modules.antt =====
-- What the checks on each collected module establish.
use optic.Prelude.{
  true, false, List, [], ◌∷◌, map, ◌≡◌, ◌↔◌, ◌⊎◌, refl, arith, All, Passes, for_each, contains,
  contains_iff, Lacks, Distinct, All-Lacks-cons,
}
use optic.Prelude.Text.{Text, text_eq}
use optic.Records.Artifact.{ArtifactId, artifact_id_eq, ArtifactKind, ArtifactRecord}
use optic.Records.ByteRange.{ByteRange}
use optic.Records.LlvmDefinitionRecord.{LlvmDefinitionRecord}
use optic.Records.LlvmModuleRecord.{
  LlvmStage, no_lto_optimized, local_thin_lto_post_pass_manager, LlvmModuleRecord,
}
use optic.Records.LlvmProvenance.{LlvmLto, off, local_thin, LlvmProvenance}
use optic.Records.Collection.{validate_artifact_range, check_module, check_modules, stage_agrees}
use optic.Records.Collection.Valid.{artifact_ids, InBounds, validate_artifact_range_iff}

abbrev pub module_names : List LlvmModuleRecord → List Text
module_names = map (λ (m : LlvmModuleRecord). m.compiler_module)

abbrev pub module_artifacts : List LlvmModuleRecord → List ArtifactId
module_artifacts = map (λ (m : LlvmModuleRecord). m.artifact)

abbrev pub Agrees : LlvmStage → LlvmLto → Type 0
Agrees stage lto =
    ((stage ≡ no_lto_optimized) × (lto ≡ off))
    ⊎ ((stage ≡ local_thin_lto_post_pass_manager) × (lto ≡ local_thin))

-- A collected module: its stage is that of the build, and its artifact holds its definitions.
pub record IsModule (artifacts : List ArtifactRecord) (provenance : LlvmProvenance)
    (m : LlvmModuleRecord) : Type 0 where
  pub stage : Agrees m.stage provenance.lto
  pub in_file : InBounds artifacts m.artifact ArtifactKind.llvm (record { start = 0; length = 0 })
  pub definitions :
      All
        (λ (d : LlvmDefinitionRecord). InBounds artifacts m.artifact ArtifactKind.llvm d.range)
        m.definitions

stage_agrees_iff :
    (stage : LlvmStage) (lto : LlvmLto) → (stage_agrees stage lto ≡ true) ↔ Agrees stage lto
stage_agrees_iff no_lto_optimized off = ground arith
stage_agrees_iff _ _ = ground arith

module _ (artifacts : List ArtifactRecord) (provenance : LlvmProvenance)
    (d : Distinct (artifact_ids artifacts)) where
  check_definitions_iff :
      (m : LlvmModuleRecord) (ds : List LlvmDefinitionRecord)
      → Passes (
          for_each
            (λ (d : LlvmDefinitionRecord).
              validate_artifact_range artifacts m.artifact ArtifactKind.llvm d.range)
            ds)
        ↔ All
            (λ (d : LlvmDefinitionRecord). InBounds artifacts m.artifact ArtifactKind.llvm d.range)
            ds
  check_definitions_iff m [] = (λ _. tt, λ _. refl)
  check_definitions_iff m (x ∷ ds) =
      let (there, back) =
        validate_artifact_range_iff artifacts m.artifact ArtifactKind.llvm x.range d in
      let (later, earlier) = check_definitions_iff m ds in
      (
        λ h. (there (ground arith), later (ground arith)),
        λ (b, bs). ground (arith, back b, earlier bs),
      )

  check_module_iff :
      (m : LlvmModuleRecord)
      → Passes (check_module artifacts provenance m) ↔ IsModule artifacts provenance m
  unfolding check_module
  check_module_iff m =
      let empty : ByteRange = record { start = 0; length = 0 } in
      let (there, back) =
        validate_artifact_range_iff artifacts m.artifact ArtifactKind.llvm empty d in
      let (inside, outside) = check_definitions_iff m m.definitions in
      (
        λ h. record {
          stage = (stage_agrees_iff m.stage provenance.lto).0 (ground arith);
          in_file = there (ground arith);
          definitions = inside (ground arith);
        },
        λ v. ground (
          arith,
          (stage_agrees_iff m.stage provenance.lto).1 v.stage,
          back v.in_file,
          outside v.definitions,
        ),
      )

  check_modules-cons :
      (names : List Text) (ids : List ArtifactId) (m : LlvmModuleRecord)
      (ms : List LlvmModuleRecord)
      → Passes (check_modules artifacts provenance names ids (m ∷ ms)) ↔ (
          (contains names m.compiler_module ≡ false)
          × (contains ids m.artifact ≡ false)
          × Passes (check_module artifacts provenance m)
          × Passes (
              check_modules artifacts provenance (m.compiler_module ∷ names) (m.artifact ∷ ids) ms))
  unfolding check_modules
  check_modules-cons names ids m ms = (λ h. ground arith, λ h. ground arith)

  abbrev pub Fresh : List Text → List ArtifactId → List LlvmModuleRecord → Type 0
  Fresh names ids ms =
      (All (Lacks names) (module_names ms) × Distinct (module_names ms))
      × (All (Lacks ids) (module_artifacts ms) × Distinct (module_artifacts ms))
      × All (IsModule artifacts provenance) ms

  pub check_modules_iff :
      (names : List Text) (ids : List ArtifactId) (ms : List LlvmModuleRecord)
      → Passes (check_modules artifacts provenance names ids ms) ↔ Fresh names ids ms
  check_modules_iff names ids [] =
      unfold check_modules in (λ _. ((tt, tt), (tt, tt), tt), λ _. refl)
  check_modules_iff names ids (m ∷ ms) =
      let (split, join) = check_modules-cons names ids m ms in
      let (there, back) = check_modules_iff (m.compiler_module ∷ names) (m.artifact ∷ ids) ms in
      let (name_apart, name_join) = All-Lacks-cons m.compiler_module names (module_names ms) in
      let (id_apart, id_join) = All-Lacks-cons m.artifact ids (module_artifacts ms) in
      (
        λ h.
            let (n, i, v, later) = split h in
            let ((ns, nd), (is, idd), vs) = there later in
            let (ns', na) = name_apart ns in
            let (is', ia) = id_apart is in
            (
              (((contains_iff names m.compiler_module).0 n, ns'), (na, nd)),
              (((contains_iff ids m.artifact).0 i, is'), (ia, idd)),
              ((check_module_iff m).0 v, vs),
            ),
        λ h.
            let (((n, ns), (na, nd)), ((i, is), (ia, idd)), (v, vs)) = h in
            join (
              (contains_iff names m.compiler_module).1 n,
              (contains_iff ids m.artifact).1 i,
              (check_module_iff m).1 v,
              back ((name_join (ns, na), nd), (id_join (is, ia), idd), vs),
            ),
      )
