-- ===== src/Evidence/Source.antt =====
-- crates/cargo-optic-evidence/src/source.rs
use optic.Prelude.{
  ℕ, List, ◌≡◌, ap, sym, subst, ◌∙◌, arith, Result, ok, ◌>>=◌, >>=-ok, map_err, map_err-ok, some,
  get_elem?, All-get_elem?,
}
use optic.Records.Artifact.{ArtifactKind, ArtifactRecord}
use optic.Records.CaptureId.{CaptureId}
use optic.Records.Collection.Valid.{InBounds}
use optic.Records.InstanceManifest.{InstanceManifest}
use optic.Records.InstanceManifest.Valid.{SourceIn}
use optic.Records.InstanceRecord.{InstanceRecord}
use optic.Records.InstanceRef.{InstanceRef}
use optic.Records.SourceRecord.{SourceAvailability, SourceUnavailable}
use optic.Records.Validation.{FilePath}
use optic.Evidence.{
  Error, Store, store, EvidenceRange, referenced_instance, referenced_instance_iff,
}

pub data SourceEvidence : Type 0 where
  available : EvidenceRange → FilePath → ℕ → SourceEvidence
  unavailable : SourceUnavailable → SourceEvidence

abbrev pub evidence_of : CaptureId → SourceAvailability → SourceEvidence
evidence_of capture_id (SourceAvailability.available s) =
    available (record { capture_id = capture_id; artifact = s.artifact; range = s.range })
      s.display_path s.starting_line
evidence_of capture_id (SourceAvailability.unavailable reason) = unavailable reason

unfoldable pub source_evidence :
    {F : Type 0} → Store F → InstanceRef → Result (Error F) SourceEvidence
unfolding referenced_instance
source_evidence s reference = do
  manifest ← map_err store (s.read_instances reference.capture_id)
  instance_ ← referenced_instance manifest reference
  ok (evidence_of reference.capture_id instance_.source)

within_source :
    (artifacts : List ArtifactRecord) (c : CaptureId) (a : SourceAvailability) (e : EvidenceRange)
    (path : FilePath) (line : ℕ)
    → available e path line ≡ evidence_of c a
    → SourceIn artifacts a
    → (e.capture_id ≡ c) × InBounds artifacts e.artifact ArtifactKind.source e.range
within_source artifacts c (SourceAvailability.available x) e path line h inside =
    let same : e ≡ record { capture_id = c; artifact = x.artifact; range = x.range } =
      ground arith in
    (
      ap (λ (y : EvidenceRange). y.capture_id) same,
      subst (λ (y : EvidenceRange). InBounds artifacts y.artifact ArtifactKind.source y.range)
          (sym same) inside,
    )
within_source artifacts c (SourceAvailability.unavailable reason) e path line h inside =
    absurd (cc h)

module _ {F : Type 0} (s : Store F) (reference : InstanceRef) where
  -- The manifest and the instance behind an answer.
  read_source :
      (e : SourceEvidence)
      → source_evidence s reference ≡ ok e
      → (m : InstanceManifest) × (i : InstanceRecord) × (s.read_instances reference.capture_id
          ≡ ok m)
        × (get_elem? m.instances reference.ordinal ≡ some i)
        × (e ≡ evidence_of reference.capture_id i.source)
  unfolding source_evidence
  read_source e h =
      let (m, read, rest) = >>=-ok (map_err store (s.read_instances reference.capture_id)) _ h in
      let (i, at, same) = >>=-ok (referenced_instance m reference) _ rest in
      (
        m,
        i,
        map_err-ok store (s.read_instances reference.capture_id) read,
        (referenced_instance_iff m reference i).0 at,
        ground (arith, same),
      )

  -- The source of an answer is a range within a source artifact that the manifest of the
  -- reference's capture declares.
  pub source_evidence-InBounds :
      (e : EvidenceRange) (path : FilePath) (line : ℕ)
      → source_evidence s reference ≡ ok (available e path line)
      → (m : InstanceManifest) × (s.read_instances reference.capture_id ≡ ok m)
        × (e.capture_id ≡ m.capture_id)
        × InBounds m.artifacts e.artifact ArtifactKind.source e.range
  source_evidence-InBounds e path line h =
      let (m, i, read, at, same) = read_source (available e path line) h in
      let (valid, scope) = s.read_valid reference.capture_id m read in
      let inside =
        All-get_elem? (λ (j : InstanceRecord). SourceIn m.artifacts j.source) m.instances
          reference.ordinal valid.sources at in
      let (owner, held) =
        within_source m.artifacts reference.capture_id i.source e path line same inside in
      (m, read, owner ∙ sym scope, held)
