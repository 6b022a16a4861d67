-- ===== src/Compiler/Collection/Origin.antt =====
-- Where the evidence of a collection comes from.
use optic.Prelude.{
  ◌≡◌, refl, sym, ap, ◌∙◌, arith, true, false, not, [], Option, none, some, Result, ok, err, >>=-ok,
  ok-inj, map_err, map_err-ok,
}
use optic.Prelude.Text.{Text, codes}
use optic.Records.AnalysisToken.{AnalysisToken}
use optic.Records.CargoArtifactRecord.{Target, CargoArtifactRecord, Orders}
use optic.Records.Validation.{FilePath}
use optic.Compiler.{Error, process_failed}
use optic.Compiler.Artifacts
use optic.Compiler.Artifacts.{Tools, CollectedEvidence, join}
use optic.Compiler.Attempt.{CargoProcess, CargoAttempt, replay, run}
use optic.Compiler.Collection.{
  CollectedBuild, of_failure, collected_build, evidence_of, collect_new_token, after_failure,
  or_replay, collect,
}
use optic.Compiler.Decoder.{read_manifest}
use optic.Compiler.Manifest.{CompilerManifest}
use optic.Compiler.Observation.{completed}
use optic.Compiler.Probe.{
  PreparedBuild, Terminal, selected_target_marker, stale_path, manifest_path,
  verified_stale_receipt,
}
use optic.Compiler.Probe.Evidence.{
  HasCompleted, Receipt, ensure-ok, completed-HasCompleted, verified_stale_receipt-Receipt,
}
use optic.Compiler.Wire.{Failure}

map_failure-ok :
    (r : Result Failure CompilerManifest) (m : CompilerManifest)
    → map_err of_failure r ≡ ok m
    → r ≡ ok m
map_failure-ok r m h = map_err-ok of_failure r h

module _ (orders : Orders) (cargo : FilePath) (owner : Text) (target : Target) (terminal : Terminal)
    (tools : Tools) (prepared : PreparedBuild) (token : AnalysisToken) where
  abbrev marker : Text
  marker = selected_target_marker token

  -- What has been seen of the attempt.
  pub record HasEvidence (attempt : CargoAttempt) (b : CollectedBuild) : Type 0 where
    pub succeeded : attempt.success ≡ true
    pub no_receipt : Receipt attempt.files stale_path marker false
    pub artifact : CargoArtifactRecord
    pub completion : HasCompleted orders target false attempt.observation artifact
    pub manifest : CompilerManifest
    pub decoded :
        read_manifest manifest_path (attempt.files.open_file manifest_path) marker ≡ ok manifest
    pub evidence : CollectedEvidence
    pub materialized :
        Artifacts.collect tools manifest prepared.compiler (join attempt.files.directory [])
        ≡ ok evidence
    pub build : b ≡ collected_build prepared token attempt artifact evidence

  evidence_of-HasEvidence :
      (attempt : CargoAttempt) (b : CollectedBuild)
      → evidence_of orders cargo owner target terminal tools prepared token attempt ≡ ok b
      → HasEvidence attempt b
  unfolding evidence_of
  evidence_of-HasEvidence attempt b h =
      let (success, h1) =
        ensure-ok attempt.success (process_failed cargo attempt.status none) _ h in
      let (is_stale, receipt, h2) =
        >>=-ok (verified_stale_receipt attempt.files stale_path marker) _ h1 in
      let (absent, h3) = ensure-ok (not is_stale) _ _ h2 in
      let (artifact, done, h4) = >>=-ok (completed orders target false attempt.observation) _ h3 in
      let (manifest, decoded, h5) =
        >>=-ok
          (map_err of_failure
            (read_manifest manifest_path (attempt.files.open_file manifest_path) marker))
          _ h4 in
      let (evidence, materialized, h6) =
        >>=-ok
          (Artifacts.collect tools manifest prepared.compiler (join attempt.files.directory [])) _
          h5 in
      let none_stale : is_stale ≡ false = ground (arith, absent) in
      record {
        succeeded = success;
        no_receipt =
            verified_stale_receipt-Receipt attempt.files stale_path marker false
              (receipt ∙ ap ok none_stale);
        artifact = artifact;
        completion = completed-HasCompleted orders target false attempt.observation artifact done;
        manifest = manifest;
        decoded = map_failure-ok _ manifest decoded;
        evidence = evidence;
        materialized = materialized;
        build =
            sym (ok-inj (ok (collected_build prepared token attempt artifact evidence)) refl h6);
      }

  -- The one run of Cargo behind a collected build.
  pub record Origin (b : CollectedBuild) : Type 0 where
    pub process : CargoProcess
    pub started : terminal.command marker (codes "collect") ≡ ok process
    pub attempt : CargoAttempt
    pub ran : run terminal.stderr orders cargo owner target process ≡ ok attempt
    pub replayed : CargoAttempt
    pub shown : replay terminal.stderr attempt ≡ ok replayed
    pub has_evidence : HasEvidence replayed b

  collect_new_token-Origin :
      (b : CollectedBuild)
      → collect_new_token orders cargo owner target terminal tools prepared token ≡ ok b
      → Origin b
  unfolding collect_new_token
  collect_new_token-Origin b h =
      let (process, started, h1) = >>=-ok (terminal.command marker (codes "collect")) _ h in
      let (attempt, ran, h2) =
        >>=-ok (run terminal.stderr orders cargo owner target process) _ h1 in
      let (replayed, shown, h3) = >>=-ok (replay terminal.stderr attempt) _ h2 in
      record {
        process = process;
        started = started;
        attempt = attempt;
        ran = ran;
        replayed = replayed;
        shown = shown;
        has_evidence = evidence_of-HasEvidence replayed b h3;
      }

  failed : (e : Error) {b : CollectedBuild} → err e ≡ ok b → ⊥
  failed e h = cc h

  never_recovers :
      (stopped : Option CargoAttempt) (e : Error) {b : CollectedBuild}
      → after_failure orders cargo owner target terminal tools stopped e ≡ ok b
      → ⊥
  never_recovers none e h = failed e h
  never_recovers (some attempt) e h =
      let (_, _, k) = >>=-ok (replay terminal.stderr attempt) (λ _. err e) h in failed e k

  of_result :
      (r : Result Error CollectedBuild) (b : CollectedBuild)
      → or_replay orders cargo owner target terminal tools prepared.stopped_probe r ≡ ok b
      → r ≡ ok b
  of_result (ok a) b h = h
  of_result (err e) b h = absurd (never_recovers prepared.stopped_probe e h)

  -- A collection succeeds only with what one run of Cargo under the new token has shown: Cargo has
  -- succeeded without a receipt of a stopped probe, with exactly one selected artifact, newly built,
  -- of the prepared target; the driver's manifest has been decoded under the marker of that very
  -- token; and the evidence is what its materialization has given. The build carries the key of the
  -- prepared request, the new token, and the normalized artifact.
  pub collect-Origin :
      (b : CollectedBuild)
      → collect orders cargo owner target terminal tools prepared token ≡ ok b
      → Origin b
  unfolding collect
  collect-Origin b h =
      collect_new_token-Origin b
        (of_result (collect_new_token orders cargo owner target terminal tools prepared token) b h)
