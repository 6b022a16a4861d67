-- ===== src/Compiler/Probe/Verdicts.antt =====
-- A probe concludes only what Cargo's run, its artifact and the files of the attempt show.
use optic.Prelude.{
  ◌≡◌, refl, arith, Bool, true, false, not, ◌&&◌, List, [], ◌∷◌, Result, ok, err, ◌>>=◌, map_err,
  is_empty, if◌then◌else◌,
}
use optic.Prelude.Text.{Text}
use optic.Records.CaptureKey.{capture_key_eq}
use optic.Records.CargoArtifactRecord.{Target, Artifact, CargoArtifactRecord, Orders}
use optic.Records.Validation.{FilePath}
use optic.Store.{IoError}
use optic.Compiler.{Error, filesystem}
use optic.Compiler.Attempt.{CargoAttempt, failure}
use optic.Compiler.Observation.{artifact_beq, completed}
use optic.Compiler.Probe.{
  Freshness, fresh, stale, stale_path, manifest_path, verified_stale_receipt, classify_success,
  classify_failure, classify_probe, require,
}
use optic.Compiler.Probe.Evidence.{
  HasCompleted, HasReceipt, Receipt, ensure-ok, completed-HasCompleted,
  verified_stale_receipt-Receipt,
}

module _ (orders : Orders) (target : Target) (attempt : CargoAttempt)
    (candidate : CargoArtifactRecord) (marker : Text) where
  -- Cargo has succeeded, stopped nothing, and reports the candidate's artifact as fresh.
  pub record IsFresh : Type 0 where
    pub succeeded : attempt.success ≡ true
    pub no_receipt : Receipt attempt.files stale_path marker false
    pub no_manifest : attempt.files.try_exists manifest_path ≡ ok false
    pub observed : CargoArtifactRecord
    pub completion : HasCompleted orders target true attempt.observation observed
    pub same_artifact : artifact_beq observed.artifact candidate.artifact ≡ true

  -- Cargo has failed because the probe stopped the compilation of the selected target.
  pub record IsStale : Type 0 where
    pub did_fail : attempt.success ≡ false
    pub receipt : HasReceipt attempt.files stale_path marker
    pub no_manifest : attempt.files.try_exists manifest_path ≡ ok false
    pub no_artifact : attempt.observation.selected ≡ []

  abbrev pub Verdict : Freshness → Type 0
  Verdict fresh = IsFresh
  Verdict stale = IsStale

  of_success :
      (is_stale : Bool) (c : Result Error CargoArtifactRecord) (f : Freshness)
      → attempt.success ≡ true
      → Receipt attempt.files stale_path marker is_stale
      → attempt.files.try_exists manifest_path ≡ ok false
      → completed orders target true attempt.observation ≡ c
      → (require (not is_stale) "successful probe requires no stale receipt" >>= λ _. c >>= λ r.
          require
            (artifact_beq r.artifact candidate.artifact)
            "fresh selected artifact must match the stored observation"
          >>= λ _. ok fresh)
        ≡ ok f
      → Verdict f
  of_success true c f hs hr hm hc h = absurd (cc h)
  of_success false (err e) f hs hr hm hc h = absurd (cc h)
  of_success false (ok r) stale hs hr hm hc h =
      let (_, e) = ensure-ok (artifact_beq r.artifact candidate.artifact) _ (ok fresh) h in
      absurd (ground (arith, e))
  of_success false (ok r) fresh hs hr hm hc h =
      let (same, _) = ensure-ok (artifact_beq r.artifact candidate.artifact) _ (ok fresh) h in
      record {
        succeeded = hs;
        no_receipt = hr;
        no_manifest = hm;
        observed = r;
        completion = completed-HasCompleted orders target true attempt.observation r hc;
        same_artifact = same;
      }

  is_empty-nil : (l : List Artifact) → is_empty l ≡ true → l ≡ []
  is_empty-nil [] h = refl
  is_empty-nil (a ∷ l) h = absurd (cc h)

  module _ (cargo : FilePath) where
    of_failure :
        (is_stale none_selected : Bool) (f : Freshness)
        → attempt.success ≡ false
        → Receipt attempt.files stale_path marker is_stale
        → attempt.files.try_exists manifest_path ≡ ok false
        → is_empty attempt.observation.selected ≡ none_selected
        → (if is_stale && none_selected then ok stale else failure cargo attempt) ≡ ok f
        → Verdict f
    of_failure true true stale hs hr hm he h = record {
      did_fail = hs;
      receipt = hr;
      no_manifest = hm;
      no_artifact = is_empty-nil attempt.observation.selected he;
    }
    of_failure true true fresh hs hr hm he h = absurd (ground (arith, h))
    of_failure true false f hs hr hm he h = absurd (cc h)
    of_failure false b f hs hr hm he h = absurd (cc h)

    of_exit :
        (is_stale success : Bool) (f : Freshness)
        → attempt.success ≡ success
        → Receipt attempt.files stale_path marker is_stale
        → attempt.files.try_exists manifest_path ≡ ok false
        → (if success
            then classify_success orders cargo target attempt candidate is_stale
            else classify_failure orders cargo target attempt is_stale)
          ≡ ok f
        → Verdict f
    unfolding classify_success
    of_exit is_stale true f hs hr hm h =
        of_success is_stale (completed orders target true attempt.observation) f hs hr hm refl h
    of_exit is_stale false f hs hr hm h =
        of_failure is_stale (is_empty attempt.observation.selected) f hs hr hm refl h

    of_manifest :
        (is_stale : Bool) (m : Result IoError Bool) (f : Freshness)
        → Receipt attempt.files stale_path marker is_stale
        → attempt.files.try_exists manifest_path ≡ m
        → (map_err (filesystem "inspect probe manifest" manifest_path) m >>= λ has_manifest.
            require (not has_manifest) "probe requires no selected analysis manifest" >>= λ _.
            if attempt.success
            then classify_success orders cargo target attempt candidate is_stale
            else classify_failure orders cargo target attempt is_stale)
          ≡ ok f
        → Verdict f
    of_manifest is_stale (err e) f hr hm h = absurd (cc h)
    of_manifest is_stale (ok true) f hr hm h = absurd (cc h)
    of_manifest is_stale (ok false) f hr hm h = of_exit is_stale attempt.success f refl hr hm h

    of_receipt :
        (v : Result Error Bool) (f : Freshness)
        → verified_stale_receipt attempt.files stale_path marker ≡ v
        → (v >>= λ is_stale.
            map_err
              (filesystem "inspect probe manifest" manifest_path)
              (attempt.files.try_exists manifest_path)
            >>= λ has_manifest.
                require (not has_manifest) "probe requires no selected analysis manifest" >>= λ _.
                if attempt.success
                then classify_success orders cargo target attempt candidate is_stale
                else classify_failure orders cargo target attempt is_stale)
          ≡ ok f
        → Verdict f
    of_receipt (err e) f hv h = absurd (cc h)
    of_receipt (ok is_stale) f hv h =
        of_manifest is_stale (attempt.files.try_exists manifest_path) f
          (verified_stale_receipt-Receipt attempt.files stale_path marker is_stale hv) refl h

    pub classify_probe-Verdict :
        (f : Freshness)
        → classify_probe orders cargo target attempt candidate marker ≡ ok f
        → Verdict f
    unfolding classify_probe
    classify_probe-Verdict f h =
        of_receipt (verified_stale_receipt attempt.files stale_path marker) f refl h
