-- ===== src/Records/Collection/Valid.antt =====
-- What the checks on artifact references establish.
use optic.Prelude.{
  ℕ, zero, suc, ◌≤◌, true, some, List, [], ◌∷◌, map, ◌≡◌, ◌≢◌, ◌↔◌, sym, ap, ◌∙◌, inl, inr, arith,
  All, get_elem?, Passes, Distinct, Member, Bool-cases, Option-cases,
}
use optic.Prelude.Text.{text_eq}
use optic.Records.Artifact.{ArtifactId, artifact_id_eq, ArtifactKind, ArtifactRecord, kind_beq}
use optic.Records.ByteRange
use optic.Records.ByteRange.{ByteRange}
use optic.Records.Collection.{find_artifact, validate_artifact_range}

abbrev pub artifact_ids : List ArtifactRecord → List ArtifactId
artifact_ids = map (λ (a : ArtifactRecord). a.id)

-- A declared artifact of this kind holds the whole range.
pub record InBounds (artifacts : List ArtifactRecord) (id : ArtifactId) (kind : ArtifactKind)
    (range : ByteRange) : Type 0 where
  pub artifact : ArtifactRecord
  pub declared : Member artifacts artifact
  pub has_id : artifact.id ≡ id
  pub has_kind : artifact.kind ≡ kind
  pub fits : ByteRange.end range ≤ artifact.byte_len

pub kind_beq_iff : (a b : ArtifactKind) → (kind_beq a b ≡ true) ↔ (a ≡ b)
kind_beq_iff ArtifactKind.source ArtifactKind.source = ground arith
kind_beq_iff _ _ = ground arith

find_artifact-Member :
    (artifacts : List ArtifactRecord) (id : ArtifactId) (a : ArtifactRecord)
    → find_artifact artifacts id ≡ some a
    → Member artifacts a × (a.id ≡ id)
find_artifact-Member [] id a h = absurd (cc h)
find_artifact-Member (b ∷ rest) id a h = elim (Bool-cases (artifact_id_eq.beq b.id id)) [
  | inl here ↦
      let e : b ≡ a = ground arith in
      (
        (0, ap some e),
        ap (λ (c : ArtifactRecord). c.id) (sym e) ∙ (artifact_id_eq.beq_iff b.id id).0 here,
      )
  | inr later ↦
      let ((i, at), e) = find_artifact-Member rest id a (rw later at h) in ((suc i, at), e)
]

Lacks-Member :
    (artifacts : List ArtifactRecord) (id : ArtifactId) (i : ℕ) (a : ArtifactRecord)
    → All (λ x. id ≢ x) (artifact_ids artifacts)
    → get_elem? artifacts i ≡ some a
    → id ≢ a.id
Lacks-Member [] id i a h at = absurd (ground arith)
Lacks-Member (b ∷ rest) id zero a h at =
    λ e. let same : b ≡ a = ground arith in h.0 (e ∙ sym (ap (λ (c : ArtifactRecord). c.id) same))
Lacks-Member (b ∷ rest) id (suc i) a h at = Lacks-Member rest id i a h.1 at

find_artifact_of_Member :
    (artifacts : List ArtifactRecord) (i : ℕ) (a : ArtifactRecord)
    → Distinct (artifact_ids artifacts)
    → get_elem? artifacts i ≡ some a
    → find_artifact artifacts a.id ≡ some a
find_artifact_of_Member [] i a d h = absurd (ground arith)
find_artifact_of_Member (b ∷ rest) zero a d h = ground (arith, artifact_id_eq.beq_iff b.id a.id)
find_artifact_of_Member (b ∷ rest) (suc i) a (apart, d) h = ground (
  arith,
  artifact_id_eq.beq_iff b.id a.id,
  Lacks-Member rest b.id i a apart h,
  find_artifact_of_Member rest i a d h,
)

-- A reference passes exactly if it is in bounds, in a table without duplicates.
pub validate_artifact_range_iff :
    (artifacts : List ArtifactRecord) (id : ArtifactId) (kind : ArtifactKind) (range : ByteRange)
    → Distinct (artifact_ids artifacts)
    → Passes (validate_artifact_range artifacts id kind range) ↔ InBounds artifacts id kind range
unfolding validate_artifact_range
validate_artifact_range_iff artifacts id kind range d = (
  λ h. elim (Option-cases (find_artifact artifacts id)) [
    | inl missing ↦ absurd (cc (rw missing at h))
    | inr (a, found) ↦
        let (member, e) = find_artifact-Member artifacts id a found in
        record {
          artifact = a;
          declared = member;
          has_id = e;
          has_kind = ground (arith, kind_beq_iff a.kind kind);
          fits = ground arith;
        }
  ],
  λ b.
      let (i, at) = b.declared in
      let found : find_artifact artifacts id ≡ some b.artifact =
        ap (find_artifact artifacts) (sym b.has_id)
        ∙ find_artifact_of_Member artifacts i b.artifact d at in
      ground (arith, found, kind_beq_iff b.artifact.kind kind, b.has_kind, b.fits),
)
