-- ===== src/Compiler/Probe/Evidence.antt =====
-- What a probe has seen where it concludes that a candidate is fresh, or stale.
use optic.Prelude.{
  ℕ, ◌≡◌, refl, ok-inj, sym, ap, subst, ◌∙◌, arith, Bool, true, false, not, ◌&&◌, Option, none,
  some, List, [], ◌∷◌, Result, ok, err, ◌>>=◌, ensure, map_err, length, ◌==◌,
}
use optic.Prelude.Text.{Text, text_beq, text_beq_iff}
use optic.Records.CaptureKey.{capture_key_eq}
use optic.Records.CargoArtifactRecord
use optic.Records.CargoArtifactRecord.{Target, Artifact, CargoArtifactRecord, Orders, sorted_target}
use optic.Records.Validation.{FilePath}
use optic.Store.{IoError, not_found, other, Metadata, is_file}
use optic.Records.Error.{Error as RecordError}
use optic.Compiler.{Error, invalid_record, filesystem, panicked}
use optic.Compiler.Protocol.{header}
use optic.Compiler.Attempt.{Files}
use optic.Compiler.Observation.{
  CargoObservation, target_beq, bool_beq, is_one_success, one_artifact, completed,
}
use optic.Compiler.Probe.{check_receipt, receipt_in, verified_stale_receipt, require}

-- Cargo has built exactly one selected artifact, with this freshness, of the prepared target.
pub record HasCompleted (orders : Orders) (target : Target) (is_fresh : Bool) (o : CargoObservation)
    (r : CargoArtifactRecord) : Type 0 where
  pub finished : o.finished ≡ true ∷ []
  pub no_errors : o.has_errors ≡ false
  pub artifact : Artifact
  pub only : o.selected ≡ artifact ∷ []
  pub freshness : artifact.fresh ≡ is_fresh
  pub normal : CargoArtifactRecord.new orders artifact ≡ ok r
  pub same_target : target_beq r.artifact.target (sorted_target orders target) ≡ true

pub ensure-ok :
    {A : Type 0} (b : Bool) (e : Error) (k : Result Error A) {a : A}
    → (ensure b e >>= λ _. k) ≡ ok a
    → (b ≡ true) × (k ≡ ok a)
ensure-ok true e k h = (refl, h)
ensure-ok false e k h = absurd (cc h)

one_success : (l : List Bool) → is_one_success l ≡ true → l ≡ true ∷ []
one_success (true ∷ []) h = refl
one_success [] h = absurd (cc h)
one_success (false ∷ l) h = absurd (cc h)
one_success (true ∷ b ∷ l) h = absurd (cc h)

bool_beq-eq : (a b : Bool) → bool_beq a b ≡ true → a ≡ b
bool_beq-eq true b h = sym h
bool_beq-eq false b h = ground (arith, h)

module _ (orders : Orders) (target : Target) (is_fresh : Bool) (o : CargoObservation)
    (r : CargoArtifactRecord) where
  -- The checks on the one artifact.
  abbrev from_record : CargoArtifactRecord → Result Error CargoArtifactRecord
  from_record record_ =
      require (target_beq record_.artifact.target (sorted_target orders target))
        "selected artifact must match the prepared Cargo target"
      >>= λ _. ok record_

  abbrev from_artifact : Artifact → Result Error CargoArtifactRecord
  from_artifact artifact =
      require (bool_beq artifact.fresh is_fresh) "selected artifact freshness" >>= λ _.
      map_err invalid_record (CargoArtifactRecord.new orders artifact) >>= from_record

  of_record :
      (artifact : Artifact) (n : Result RecordError CargoArtifactRecord)
      → o.finished ≡ true ∷ []
      → o.has_errors ≡ false
      → o.selected ≡ artifact ∷ []
      → artifact.fresh ≡ is_fresh
      → CargoArtifactRecord.new orders artifact ≡ n
      → (map_err invalid_record n >>= from_record) ≡ ok r
      → HasCompleted orders target is_fresh o r
  of_record artifact (err e) hf he hs hb hn h = absurd (cc h)
  of_record artifact (ok record_) hf he hs hb hn h =
      let (same, e) = ensure-ok _ _ (ok record_) h in
      let equal : record_ ≡ r = ok-inj (ok record_) refl e in
      record {
        finished = hf;
        no_errors = he;
        artifact = artifact;
        only = hs;
        freshness = hb;
        normal = hn ∙ ap ok equal;
        same_target =
            subst
              (λ (q : CargoArtifactRecord).
                target_beq q.artifact.target (sorted_target orders target) ≡ true)
              equal same;
      }

  of_artifact :
      (l : List Artifact)
      → o.finished ≡ true ∷ []
      → o.has_errors ≡ false
      → o.selected ≡ l
      → (one_artifact orders l >>= from_artifact) ≡ ok r
      → HasCompleted orders target is_fresh o r
  of_artifact [] hf he hs h = absurd (cc h)
  of_artifact (a ∷ b ∷ l) hf he hs h = absurd (cc h)
  of_artifact (a ∷ []) hf he hs h =
      let (same, more) =
        ensure-ok (bool_beq a.fresh is_fresh) _
          (map_err invalid_record (CargoArtifactRecord.new orders a) >>= from_record) h in
      of_record a (CargoArtifactRecord.new orders a) hf he hs (bool_beq-eq a.fresh is_fresh same)
        refl more

  pub completed-HasCompleted :
      completed orders target is_fresh o ≡ ok r → HasCompleted orders target is_fresh o r
  unfolding completed
  completed-HasCompleted h =
      let (done, more) =
        ensure-ok (is_one_success o.finished && not o.has_errors) _
          (one_artifact orders o.selected >>= from_artifact) h in
      of_artifact o.selected (one_success o.finished (ground (arith, done))) (ground (arith, done))
        refl more

-- The receipt of a stopped probe: a regular file that holds the header with the marker, and nothing
-- else.
pub record HasReceipt (files : Files) (path : FilePath) (marker : Text) : Type 0 where
  pub bytes : List ℕ
  pub metadata : Metadata
  pub inspected : files.symlink_metadata path ≡ ok metadata
  pub regular : is_file metadata.kind ≡ true
  pub is_header : header marker ≡ some bytes
  pub content : files.read path ≡ ok bytes

abbrev pub Receipt : Files → FilePath → Text → Bool → Type 0
Receipt files path marker true = HasReceipt files path marker
Receipt files path marker false = files.symlink_metadata path ≡ err not_found

module _ (files : Files) (path : FilePath) (marker : Text) where
  of_content :
      (metadata : Metadata) (expected : List ℕ) (content : Result IoError (List ℕ)) (b : Bool)
      → files.symlink_metadata path ≡ ok metadata
      → header marker ≡ some expected
      → files.read path ≡ content
      → is_file metadata.kind ≡ true
      → (map_err (filesystem "read stale receipt" path) content >>= λ actual.
          require
            (text_beq actual expected)
            "stale receipt must match this analysis token and protocol"
          >>= λ _. ok true)
        ≡ ok b
      → Receipt files path marker b
  of_content metadata expected (err e) b hm hh hc hk h = absurd (cc h)
  of_content metadata expected (ok actual) false hm hh hc hk h =
      let (_, e) = ensure-ok (text_beq actual expected) _ (ok true) h in absurd (ground (arith, e))
  of_content metadata expected (ok actual) true hm hh hc hk h =
      let (same, _) = ensure-ok (text_beq actual expected) _ (ok true) h in
      record {
        bytes = expected;
        metadata = metadata;
        inspected = hm;
        regular = hk;
        is_header = hh;
        content = hc ∙ ap ok ((text_beq_iff actual expected).0 same);
      }

  of_header :
      (metadata : Metadata) (o : Option (List ℕ)) (b : Bool)
      → files.symlink_metadata path ≡ ok metadata
      → header marker ≡ o
      → (elim o as (λ _. Result Error (List ℕ)) [
        | none ↦ err (panicked "the marker is a fixed-length analysis token")
        | some bytes ↦ ok bytes
      ]
          >>= check_receipt files path metadata)
        ≡ ok b
      → Receipt files path marker b
  unfolding check_receipt
  of_header metadata none b hm hh h = absurd (cc h)
  of_header metadata (some expected) b hm hh h =
      let (kind, more) =
        ensure-ok (is_file metadata.kind && metadata.len == length expected) _
          (map_err (filesystem "read stale receipt" path) (files.read path) >>= λ actual.
            require (text_beq actual expected)
              "stale receipt must match this analysis token and protocol"
            >>= λ _. ok true)
          h in
      of_content metadata expected (files.read path) b hm hh refl (ground (arith, kind)) more

  of_metadata :
      (m : Result IoError Metadata) (b : Bool)
      → files.symlink_metadata path ≡ m
      → receipt_in files path marker m ≡ ok b
      → Receipt files path marker b
  of_metadata (err not_found) true hm h = absurd (ground (arith, h))
  of_metadata (err not_found) false hm h = hm
  of_metadata (err (other e)) b hm h = absurd (cc h)
  of_metadata (ok metadata) b hm h = of_header metadata (header marker) b hm refl h

  pub verified_stale_receipt-Receipt :
      (b : Bool) → verified_stale_receipt files path marker ≡ ok b → Receipt files path marker b
  unfolding verified_stale_receipt
  verified_stale_receipt-Receipt b h = of_metadata (files.symlink_metadata path) b refl h
