-- ===== src/Compiler/Probe/Conclusion.antt =====
-- What a probe of a candidate has found, and the build that it leaves.
use optic.Prelude.{
  ◌≡◌, refl, sym, ap, ◌∙◌, arith, true, Option, none, some, [], Result, ok, err, ◌>>=◌,
}
use optic.Prelude.Text.{Text, codes}
use optic.Records.CaptureKey.{capture_key_eq}
use optic.Records.CaptureRecord.{CaptureAnalysis}
use optic.Records.CargoArtifactRecord.{Target, CargoArtifactRecord, Orders}
use optic.Records.Validation.{FilePath}
use optic.Compiler.{Error}
use optic.Compiler.Attempt.{CargoProcess, CargoAttempt, relay_warnings, replay, run}
use optic.Compiler.Probe.{
  Freshness, fresh, stale, selected_target_marker, classify_probe, PreparedBuild, Terminal,
  conclude, is_none, probe,
}
use optic.Compiler.Probe.Verdicts.{Verdict, classify_probe-Verdict}
use optic.Compiler.Probe.Evidence.{ensure-ok}

module _ (orders : Orders) (cargo : FilePath) (owner : Text) (target : Target) (terminal : Terminal)
    (prepared : PreparedBuild) (candidate : CaptureAnalysis CargoArtifactRecord) where
  abbrev pub marker_of : Text
  marker_of = selected_target_marker candidate.token

  -- The state behind a probe: a stopped probe is kept for collection.
  abbrev pub After : CargoAttempt → Freshness → PreparedBuild
  After attempt fresh = prepared
  After attempt stale = record prepared { stopped_probe = some (record attempt { warnings = [] }) }

  -- What a probe has found.
  pub record Probed (f : Freshness) (after : PreparedBuild) : Type 0 where
    pub same_key : candidate.request_key ≡ prepared.request_key
    pub first_probe : prepared.stopped_probe ≡ none
    pub process : CargoProcess
    pub started : terminal.command marker_of (codes "probe") ≡ ok process
    pub attempt : CargoAttempt
    pub ran : run terminal.stderr orders cargo owner target process ≡ ok attempt
    pub verdict : Verdict orders target attempt candidate.artifact marker_of f
    pub state : after ≡ After attempt f

  abbrev concluded : CargoAttempt → Freshness → Result Error (Freshness × PreparedBuild)
  concluded attempt g = ok (g, After attempt g)

  of_pair :
      (f g : Freshness) (attempt : CargoAttempt) (after : PreparedBuild)
      → concluded attempt g ≡ ok (f, after)
      → (g ≡ f) × (after ≡ After attempt f)
  of_pair f g attempt after h =
      let same : g ≡ f = ground (arith, h) in
      let state : After attempt g ≡ after = ground (arith, h) in
      (same, sym state ∙ ap (After attempt) same)

  of_output :
      {B : Type 0} (output : Result Error B) {A : Type 0} (r : Result Error A) (a : A)
      → (output >>= λ _. r) ≡ ok a
      → r ≡ ok a
  of_output (err e) r a h = absurd (cc h)
  of_output (ok _) r a h = h

  of_relay :
      (output : Result Error (Unit {0})) (attempt : CargoAttempt) (p : Freshness × PreparedBuild)
      → ((output >>= λ _. ok (record attempt { warnings = [] })) >>= λ (relayed : CargoAttempt).
          ok (stale, record prepared { stopped_probe = some relayed }))
        ≡ ok p
      → concluded attempt stale ≡ ok p
  of_relay (err e) attempt p h = absurd (cc h)
  of_relay (ok _) attempt p h = h

  failed : {e : Error} {p : Freshness × PreparedBuild} → err e ≡ ok p → ⊥
  failed h = cc h

  of_conclusion :
      (attempt : CargoAttempt) (r : Result Error Freshness) (f : Freshness) (after : PreparedBuild)
      → conclude orders cargo owner target terminal prepared attempt r ≡ ok (f, after)
      → (r ≡ ok f) × (after ≡ After attempt f)
  unfolding conclude relay_warnings
  of_conclusion attempt (ok stale) f after h =
      let (e, s) = of_pair f stale attempt after (of_relay _ attempt (f, after) h) in (ap ok e, s)
  of_conclusion attempt (ok fresh) f after h =
      let (e, s) =
        of_pair f fresh attempt after
          (of_output (replay terminal.stderr attempt) (concluded attempt fresh) (f, after) h) in
      (ap ok e, s)
  of_conclusion attempt (err e) f after h =
      absurd (failed (of_output (replay terminal.stderr attempt) (err e) (f, after) h))

  is_none-none : (o : Option CargoAttempt) → is_none o ≡ true → o ≡ none
  is_none-none none h = refl
  is_none-none (some a) h = absurd (cc h)

  of_run :
      (process : CargoProcess) (r : Result Error CargoAttempt) (f : Freshness)
      (after : PreparedBuild)
      → candidate.request_key ≡ prepared.request_key
      → prepared.stopped_probe ≡ none
      → terminal.command marker_of (codes "probe") ≡ ok process
      → run terminal.stderr orders cargo owner target process ≡ r
      → (r >>= λ attempt.
          conclude orders cargo owner target terminal prepared attempt
            (classify_probe orders cargo target attempt candidate.artifact marker_of))
        ≡ ok (f, after)
      → Probed f after
  of_run process (err e) f after hk hp hc hr h = absurd (cc h)
  of_run process (ok attempt) f after hk hp hc hr h =
      let (found, state) =
        of_conclusion attempt
          (classify_probe orders cargo target attempt candidate.artifact marker_of) f after h in
      record {
        same_key = hk;
        first_probe = hp;
        process = process;
        started = hc;
        attempt = attempt;
        ran = hr;
        verdict =
            classify_probe-Verdict orders target attempt candidate.artifact marker_of cargo f found;
        state = state;
      }

  of_command :
      (c : Result Error CargoProcess) (f : Freshness) (after : PreparedBuild)
      → candidate.request_key ≡ prepared.request_key
      → prepared.stopped_probe ≡ none
      → terminal.command marker_of (codes "probe") ≡ c
      → (c >>= λ process. run terminal.stderr orders cargo owner target process >>= λ attempt.
          conclude orders cargo owner target terminal prepared attempt
            (classify_probe orders cargo target attempt candidate.artifact marker_of))
        ≡ ok (f, after)
      → Probed f after
  of_command (err e) f after hk hp hc h = absurd (cc h)
  of_command (ok process) f after hk hp hc h =
      of_run process (run terminal.stderr orders cargo owner target process) f after hk hp hc refl h

  -- Where a probe ends with a verdict, the candidate has the key of the prepared request and no probe
  -- has stopped before. For fresh, Cargo has succeeded without a receipt and without a manifest, with
  -- exactly one selected artifact, which is fresh, of the prepared target, and equal to the
  -- candidate's after normalization; the build is as before. For stale, Cargo has failed with the
  -- receipt of this very marker and reported no selected artifact, there is no manifest, and the
  -- attempt is kept for the collection.
  pub probe-Probed :
      (f : Freshness) (after : PreparedBuild)
      → probe orders cargo owner target terminal prepared candidate ≡ ok (f, after)
      → Probed f after
  unfolding probe
  probe-Probed f after h =
      let (key, h1) =
        ensure-ok (capture_key_eq.beq candidate.request_key prepared.request_key) _ _ h in
      let (vacant, h2) = ensure-ok (is_none prepared.stopped_probe) _ _ h1 in
      of_command (terminal.command marker_of (codes "probe")) f after
        ((capture_key_eq.beq_iff _ _).0 key) (is_none-none prepared.stopped_probe vacant) refl h2
