-- ===== src/Records/Collection/Consistent.antt =====
-- What the checks on the LLVM side of a manifest establish.
use optic.Prelude.{
  false, none, List, [], ◌∷◌, ◌≡◌, ◌≢◌, ◌↔◌, ◌⊎◌, refl, sym, ◌∙◌, inl, inr, arith, Lacks-nil, All,
  All-imp, Passes, for_each, contains_iff_Member, Distinct, Member, Bool-cases,
}
use optic.Prelude.Text.{Text, text_eq, text_beq_iff, codes}
use optic.Records.Artifact.{ArtifactId, artifact_id_eq, ArtifactKind, ArtifactRecord, kind_beq}
use optic.Records.LlvmModuleRecord.{LlvmModuleRecord, LlvmCollection, collected, not_captured}
use optic.Records.LlvmProvenance.{off, local_thin, LlvmProvenance}
use optic.Records.InstanceRecord.{InstanceRecord}
use optic.Records.Collection.{
  check_modules, provenance_unsupported, check_placements, check_llvm_artifact, placement_units,
  validate_llvm,
}
use optic.Records.Collection.Valid.{artifact_ids, kind_beq_iff}
use optic.Records.Collection.Modules.{module_names, module_artifacts, IsModule, check_modules_iff}

-- A configuration whose modules are collected.
pub record IsSupported (p : LlvmProvenance) : Type 0 where
  pub backend : p.backend ≡ codes "llvm"
  pub version : p.llvm_version ≢ none
  pub not_incremental : p.incremental ≡ false
  pub no_linker_plugin : p.linker_plugin_lto ≡ false
  pub lto : (p.lto ≡ off) ⊎ (p.lto ≡ local_thin)

provenance_unsupported_iff :
    (p : LlvmProvenance) → (provenance_unsupported p ≡ false) ↔ IsSupported p
provenance_unsupported_iff p = (
  λ h. record {
    backend = ground (arith, text_beq_iff p.backend (codes "llvm"));
    version = ground arith;
    not_incremental = ground arith;
    no_linker_plugin = ground arith;
    lto = ground arith;
  },
  λ s. ground (
    arith,
    text_beq_iff p.backend (codes "llvm"),
    s.backend,
    s.version,
    s.not_incremental,
    s.no_linker_plugin,
    s.lto,
  ),
)

-- The LLVM side of a valid manifest. Nothing collected: no LLVM artifact. Collected: the
-- configuration is supported, modules and their artifacts are distinct, each module is in bounds,
-- each placement's codegen unit has its module, and each LLVM artifact is that of a module.
abbrev pub IsCollection :
    List InstanceRecord → List ArtifactRecord → LlvmProvenance → LlvmCollection → Type 0
IsCollection instances artifacts provenance (not_captured reason) =
    All (λ (a : ArtifactRecord). a.kind ≡ ArtifactKind.source) artifacts
IsCollection instances artifacts provenance (collected modules) =
    IsSupported provenance
    × Distinct (module_names modules)
    × Distinct (module_artifacts modules)
    × All (IsModule artifacts provenance) modules
    × All (Member (module_names modules)) (placement_units instances)
    × All
        (λ (a : ArtifactRecord).
          a.kind ≡ ArtifactKind.llvm → Member (module_artifacts modules) a.id)
        artifacts

check_placements_iff :
    (modules : List LlvmModuleRecord) (units : List Text)
    → Passes (check_placements (collected modules) (module_names modules) units)
      ↔ All (Member (module_names modules)) units
check_placements_iff modules [] = (λ _. tt, λ _. refl)
check_placements_iff modules (u ∷ units) =
    let (there, back) = contains_iff_Member (module_names modules) u in
    let (later, earlier) = check_placements_iff modules units in
    (
      λ h. (there (ground arith), later (ground arith)),
      λ (m, ms). ground (arith, back m, earlier ms),
    )

check_llvm_artifact_iff :
    (ids : List ArtifactId) (a : ArtifactRecord)
    → Passes (check_llvm_artifact ids a) ↔ (a.kind ≡ ArtifactKind.llvm → Member ids a.id)
check_llvm_artifact_iff ids a = (
  λ h k. (contains_iff_Member ids a.id).0 (ground (arith, kind_beq_iff a.kind ArtifactKind.llvm)),
  λ m. elim (Bool-cases (kind_beq a.kind ArtifactKind.llvm)) [
    | inl is_llvm ↦ ground (
      arith,
      (contains_iff_Member ids a.id).1 (m ((kind_beq_iff a.kind ArtifactKind.llvm).0 is_llvm)),
    )
    | inr other ↦ rw other
  ],
)

check_llvm_artifacts_iff :
    (ids : List ArtifactId) (artifacts : List ArtifactRecord)
    → Passes (for_each (check_llvm_artifact ids) artifacts)
      ↔ All (λ (a : ArtifactRecord). a.kind ≡ ArtifactKind.llvm → Member ids a.id) artifacts
check_llvm_artifacts_iff ids [] = (λ _. tt, λ _. refl)
check_llvm_artifacts_iff ids (a ∷ rest) =
    let (there, back) = check_llvm_artifact_iff ids a in
    let (later, earlier) = check_llvm_artifacts_iff ids rest in
    (
      λ h. (there (ground arith), later (ground arith)),
      λ (m, ms). ground (arith, back m, earlier ms),
    )

source_of_no_module :
    (a : ArtifactRecord)
    → (a.kind ≡ ArtifactKind.llvm → Member {A = ArtifactId} [] a.id)
    → a.kind ≡ ArtifactKind.source
source_of_no_module a h = elim (Bool-cases (kind_beq a.kind ArtifactKind.llvm)) [
  | inl is_llvm ↦
      absurd
        (let (i, at) = h ((kind_beq_iff a.kind ArtifactKind.llvm).0 is_llvm) in ground (arith, at))
  | inr other ↦ ground (arith, other)
]

no_module_of_source :
    (a : ArtifactRecord)
    → a.kind ≡ ArtifactKind.source
    → a.kind ≡ ArtifactKind.llvm
    → Member {A = ArtifactId} [] a.id
no_module_of_source a s l = absurd (cc (sym s ∙ l))

module _ (instances : List InstanceRecord) (artifacts : List ArtifactRecord)
    (provenance : LlvmProvenance) (modules : List LlvmModuleRecord) where
  collected_parts :
      Passes (validate_llvm instances artifacts provenance (collected modules))
      → (provenance_unsupported provenance ≡ false)
        × Passes (check_modules artifacts provenance [] [] modules)
        × Passes (
            check_placements (collected modules) (module_names modules) (placement_units instances))
        × Passes (for_each (check_llvm_artifact (module_artifacts modules)) artifacts)
  unfolding validate_llvm
  collected_parts h = ground arith

  collected_join :
      provenance_unsupported provenance ≡ false
      → Passes (check_modules artifacts provenance [] [] modules)
      → Passes
          (check_placements (collected modules) (module_names modules) (placement_units instances))
      → Passes (for_each (check_llvm_artifact (module_artifacts modules)) artifacts)
      → Passes (validate_llvm instances artifacts provenance (collected modules))
  unfolding validate_llvm
  collected_join s m p a = ground arith

-- With distinct artifact identifiers, the checks on the LLVM side pass exactly if, when nothing was
-- collected, no artifact is LLVM, and otherwise the configuration is supported, modules and their
-- artifacts are distinct, each module's stage is that of the build and its definitions lie in its
-- artifact, each placement has its module, and each LLVM artifact is that of a module.
pub validate_llvm_iff :
    (instances : List InstanceRecord) (artifacts : List ArtifactRecord)
    (provenance : LlvmProvenance) (llvm : LlvmCollection)
    → Distinct (artifact_ids artifacts)
    → Passes (validate_llvm instances artifacts provenance llvm)
      ↔ IsCollection instances artifacts provenance llvm
unfolding validate_llvm
validate_llvm_iff instances artifacts provenance (not_captured reason) d =
    let (there, back) = check_llvm_artifacts_iff [] artifacts in
    (
      λ h. All-imp source_of_no_module artifacts (there (unfold check_modules in h)),
      λ s. unfold check_modules in back (All-imp no_module_of_source artifacts s),
    )
validate_llvm_iff instances artifacts provenance (collected modules) d =
    let (s_there, s_back) = provenance_unsupported_iff provenance in
    let (m_there, m_back) = check_modules_iff artifacts provenance d [] [] modules in
    let (p_there, p_back) = check_placements_iff modules (placement_units instances) in
    let (a_there, a_back) = check_llvm_artifacts_iff (module_artifacts modules) artifacts in
    (
      λ h.
          let (s, m, p, a) = collected_parts instances artifacts provenance modules h in
          let (names, ids, valid) = m_there m in
          (s_there s, names.1, ids.1, valid, p_there p, a_there a),
      λ (s, names, ids, valid, p, a).
          collected_join instances artifacts provenance modules (s_back s)
            (m_back (
              (Lacks-nil (module_names modules), names),
              (Lacks-nil (module_artifacts modules), ids),
              valid,
            ))
            (p_back p) (a_back a),
    )
