-- ===== src/Records/InstanceManifest/Valid.antt =====
-- A manifest is built exactly from consistent parts.
use optic.Prelude.{
  false, List, [], ◌∷◌, map, ◌≡◌, ◌↔◌, refl, sym, ap, ◌∙◌, subst, arith, ok, All, Passes, Lacks-nil,
  contains, contains_iff, Lacks, Distinct, All-Lacks-cons, first_duplicate_iff,
}
use optic.Records.Artifact.{artifact_id_eq, ArtifactKind, ArtifactRecord}
use optic.Records.CaptureId.{CaptureId}
use optic.Records.Collection.{validate_llvm}
use optic.Records.Collection.Valid.{artifact_ids, InBounds, validate_artifact_range_iff}
use optic.Records.Collection.Consistent.{IsCollection, validate_llvm_iff}
use optic.Records.Identity.{Identity, identity, identity_eq}
use optic.Records.InstanceManifest.{
  capture_format_version, InstanceManifest, check_artifacts, check_source, check_instances, new,
  RawInstanceManifest, try_from,
}
use optic.Records.InstanceRecord.{InstanceRecord}
use optic.Records.LlvmModuleRecord.{LlvmCollection}
use optic.Records.LlvmProvenance.{LlvmProvenance}
use optic.Records.SourceRecord.{SourceAvailability, available, unavailable}

abbrev pub identities : List InstanceRecord → List Identity
identities = map (λ i. identity i)

-- Available source is a range of a declared source artifact.
abbrev pub SourceIn : List ArtifactRecord → SourceAvailability → Type 0
SourceIn artifacts (available s) = InBounds artifacts s.artifact ArtifactKind.source s.range
SourceIn artifacts (unavailable reason) = Unit

-- What holds of every manifest that the constructor returns.
pub record IsManifest (m : InstanceManifest) : Type 0 where
  pub version : m.format_version ≡ capture_format_version
  pub distinct_artifacts : Distinct (artifact_ids m.artifacts)
  pub distinct_instances : Distinct (identities m.instances)
  pub sources : All (λ (i : InstanceRecord). SourceIn m.artifacts i.source) m.instances
  pub collection : IsCollection m.instances m.artifacts m.llvm_provenance m.llvm

check_artifacts_iff :
    (artifacts : List ArtifactRecord)
    → Passes (check_artifacts artifacts) ↔ Distinct (artifact_ids artifacts)
unfolding check_artifacts
check_artifacts_iff artifacts =
    ground
      (arith, first_duplicate_iff [] (artifact_ids artifacts), Lacks-nil (artifact_ids artifacts))

module _ (artifacts : List ArtifactRecord) (d : Distinct (artifact_ids artifacts)) where
  check_source_iff :
      (s : SourceAvailability) → Passes (check_source artifacts s) ↔ SourceIn artifacts s
  check_source_iff (available s) =
      validate_artifact_range_iff artifacts s.artifact ArtifactKind.source s.range d
  check_source_iff (unavailable reason) = (λ _. tt, λ _. refl)

  check_instances-cons :
      (seen : List Identity) (i : InstanceRecord) (rest : List InstanceRecord)
      → Passes (check_instances artifacts seen (i ∷ rest)) ↔ (
          (contains seen (identity i) ≡ false)
          × Passes (check_source artifacts i.source)
          × Passes (check_instances artifacts (identity i ∷ seen) rest))
  unfolding check_instances
  check_instances-cons seen i rest = (λ h. ground arith, λ h. ground arith)

  check_instances_iff :
      (seen : List Identity) (instances : List InstanceRecord)
      → Passes (check_instances artifacts seen instances) ↔ (
          (All (Lacks seen) (identities instances) × Distinct (identities instances))
          × All (λ (i : InstanceRecord). SourceIn artifacts i.source) instances)
  check_instances_iff seen [] = unfold check_instances in (λ _. ((tt, tt), tt), λ _. refl)
  check_instances_iff seen (i ∷ rest) =
      let (split, join) = check_instances-cons seen i rest in
      let (there, back) = check_instances_iff (identity i ∷ seen) rest in
      let (apart, together) = All-Lacks-cons (identity i) seen (identities rest) in
      let (s_there, s_back) = check_source_iff i.source in
      (
        λ h.
            let (new, source, later) = split h in
            let ((lacks, distinct), sources) = there later in
            let (fresh, differ) = apart lacks in
            (
              (((contains_iff seen (identity i)).0 new, fresh), (differ, distinct)),
              (s_there source, sources),
            ),
        λ h.
            let (((new, fresh), (differ, distinct)), (source, sources)) = h in
            join (
              (contains_iff seen (identity i)).1 new,
              s_back source,
              back ((together (fresh, differ), distinct), sources),
            ),
      )

abbrev pub assembled :
    CaptureId
    → List InstanceRecord
    → List ArtifactRecord
    → LlvmProvenance
    → LlvmCollection
    → InstanceManifest
assembled capture_id instances artifacts llvm_provenance llvm = record {
  format_version = capture_format_version;
  capture_id = capture_id;
  instances = instances;
  artifacts = artifacts;
  llvm_provenance = llvm_provenance;
  llvm = llvm;
}

module _ (c : CaptureId) (instances : List InstanceRecord) (artifacts : List ArtifactRecord)
    (p : LlvmProvenance) (l : LlvmCollection) where
  new_parts :
      (m : InstanceManifest)
      → (new c instances artifacts p l ≡ ok m) ↔ (
          (m ≡ assembled c instances artifacts p l)
          × Passes (check_artifacts artifacts)
          × Passes (check_instances artifacts [] instances)
          × Passes (validate_llvm instances artifacts p l))
  unfolding new
  new_parts m = (λ h. ground arith, λ h. ground arith)

  -- A manifest is built exactly if the artifact identifiers and the instance identities are
  -- distinct, available source is within a declared source artifact, and the LLVM collection is
  -- consistent with them; it has then the given parts and the current format version.
  pub new_iff :
      (m : InstanceManifest)
      → (new c instances artifacts p l ≡ ok m) ↔ (
          (m ≡ assembled c instances artifacts p l)
          × IsManifest (assembled c instances artifacts p l))
  new_iff m =
      let (split, join) = new_parts m in
      let (a_there, a_back) = check_artifacts_iff artifacts in
      (
        λ h.
            let (e, a, i, v) = split h in
            let d = a_there a in
            let ((_, identities), sources) = (check_instances_iff artifacts d [] instances).0 i in
            (
              e,
              record {
                version = refl;
                distinct_artifacts = d;
                distinct_instances = identities;
                sources = sources;
                collection = (validate_llvm_iff instances artifacts p l d).0 v;
              },
            ),
        λ (e, valid).
            let d = valid.distinct_artifacts in
            join (
              e,
              a_back d,
              (check_instances_iff artifacts d [] instances).1
                  ((Lacks-nil (identities instances), valid.distinct_instances), valid.sources),
              (validate_llvm_iff instances artifacts p l d).1 valid.collection,
            ),
      )

-- The stored form of a manifest.
abbrev pub raw_of : InstanceManifest → RawInstanceManifest
raw_of m = record {
  format_version = m.format_version;
  capture_id = m.capture_id;
  instances = m.instances;
  artifacts = m.artifacts;
  llvm_provenance = m.llvm_provenance;
  llvm = m.llvm;
}

try_from_parts :
    (raw : RawInstanceManifest) (m : InstanceManifest)
    → (try_from raw ≡ ok m) ↔ (
        (raw.format_version ≡ capture_format_version)
        × (new raw.capture_id raw.instances raw.artifacts raw.llvm_provenance raw.llvm ≡ ok m))
unfolding try_from
try_from_parts raw m = (λ h. ground arith, λ h. ground arith)

stored_form :
    (raw : RawInstanceManifest)
    → raw.format_version ≡ capture_format_version
    → raw
      ≡ raw_of (assembled raw.capture_id raw.instances raw.artifacts raw.llvm_provenance raw.llvm)
stored_form raw e =
    ap
      (λ v. record {
        format_version = v;
        capture_id = raw.capture_id;
        instances = raw.instances;
        artifacts = raw.artifacts;
        llvm_provenance = raw.llvm_provenance;
        llvm = raw.llvm;
      })
      e

reassembled :
    (m : InstanceManifest)
    → m.format_version ≡ capture_format_version
    → m ≡ assembled m.capture_id m.instances m.artifacts m.llvm_provenance m.llvm
reassembled m e =
    ap
      (λ v. record {
        format_version = v;
        capture_id = m.capture_id;
        instances = m.instances;
        artifacts = m.artifacts;
        llvm_provenance = m.llvm_provenance;
        llvm = m.llvm;
      })
      e

-- A valid manifest is read back from its stored form.
pub try_from-raw_of : (m : InstanceManifest) → IsManifest m → try_from (raw_of m) ≡ ok m
try_from-raw_of m valid =
    let e = reassembled m valid.version in
    (try_from_parts (raw_of m) m).1 (
      valid.version,
      (new_iff m.capture_id m.instances m.artifacts m.llvm_provenance m.llvm m).1
          (e, subst IsManifest e valid),
    )

-- A stored manifest is accepted exactly if it is the stored form of a valid manifest.
pub try_from_iff :
    (raw : RawInstanceManifest) (m : InstanceManifest)
    → (try_from raw ≡ ok m) ↔ ((raw ≡ raw_of m) × IsManifest m)
unfolding try_from
try_from_iff raw m =
    let parts = try_from_parts raw m in
    let built = new_iff raw.capture_id raw.instances raw.artifacts raw.llvm_provenance raw.llvm m in
    (
      λ h.
          let (version, e) = parts.0 h in
          let (same, valid) = built.0 e in
          (stored_form raw version ∙ ap raw_of (sym same), subst IsManifest (sym same) valid),
      λ (e, valid). subst (λ r. try_from r ≡ ok m) (sym e) (try_from-raw_of m valid),
    )
