-- ===== src/Capture/Reusing.antt =====
-- A capture is reused only if it is the stored candidate and a probe has found it to be fresh.
use optic.Prelude.{◌≡◌, refl, subst, arith, Option, none, some, Result, ok, err}
use optic.Records.CaptureRecord.{CaptureRecord}
use optic.Records.CargoArtifactRecord.{CargoArtifactRecord}
use optic.Records.InstanceManifest.{InstanceManifest}
use optic.Store
use optic.Store.{FileSystem}
use optic.Store.Candidate.{read_candidate}
use optic.Compiler
use optic.Compiler.Probe.{fresh, stale, Freshness, PreparedBuild, probe}
use optic.Compiler.Probe.Conclusion.{Probed, probe-Probed}
use optic.Capture.{CapturePolicy, reuse, force, Cargo, Json, Evidence, verdict, found, try_reuse}

module _ (cargo : Cargo) (json : Json) where
  -- The stored candidate of the request, which a probe has found to be fresh.
  pub record Reusable (prepared : PreparedBuild) (fs : FileSystem)
      (c : CaptureRecord CargoArtifactRecord) : Type 0 where
    pub manifest : InstanceManifest
    pub stored :
        read_candidate fs json.decode_capture json.decode_manifest json.decode_pointer
          prepared.request_key
        ≡ ok (some (c, manifest))
    pub after : PreparedBuild
    pub probed :
        Probed cargo.orders cargo.path cargo.owner cargo.target cargo.terminal prepared c.analysis
          fresh after

  module _ (prepared : PreparedBuild) (fs : FileSystem) where
    of_verdict :
        (d c : CaptureRecord CargoArtifactRecord) (m : InstanceManifest)
        (p : Result Compiler.Error (Freshness × PreparedBuild)) (after : PreparedBuild)
        → read_candidate fs json.decode_capture json.decode_manifest json.decode_pointer
            prepared.request_key
          ≡ ok (some (d, m))
        → probe cargo.orders cargo.path cargo.owner cargo.target cargo.terminal prepared d.analysis
          ≡ p
        → verdict cargo json d p ≡ ok (some c, after)
        → Reusable prepared fs c
    of_verdict d c m (err e) after hs hp h = absurd (cc h)
    of_verdict d c m (ok (stale, b)) after hs hp h = absurd (ground (arith, h))
    of_verdict d c m (ok (fresh, b)) after hs hp h =
        let same : d ≡ c = ground (arith, h) in
        subst (Reusable prepared fs) same (record {
          manifest = m;
          stored = hs;
          after = b;
          probed =
              probe-Probed cargo.orders cargo.path cargo.owner cargo.target cargo.terminal prepared
                d.analysis fresh b hp;
        })

    of_found :
        (r : Result Store.Error (Option Evidence)) (c : CaptureRecord CargoArtifactRecord)
        (after : PreparedBuild)
        → read_candidate fs json.decode_capture json.decode_manifest json.decode_pointer
            prepared.request_key
          ≡ r
        → found cargo json prepared r ≡ ok (some c, after)
        → Reusable prepared fs c
    of_found (err e) c after hr h = absurd (cc h)
    of_found (ok none) c after hr h = absurd (ground (arith, h))
    of_found (ok (some (d, m))) c after hr h =
        of_verdict d c m
          (probe cargo.orders cargo.path cargo.owner cargo.target cargo.terminal prepared
            d.analysis)
          after hr refl h

    pub try_reuse-Reusable :
        (policy : CapturePolicy) (c : CaptureRecord CargoArtifactRecord) (after : PreparedBuild)
        → try_reuse cargo json policy prepared fs ≡ ok (some c, after)
        → (policy ≡ reuse) × Reusable prepared fs c
    unfolding try_reuse
    try_reuse-Reusable force c after h = absurd (ground (arith, h))
    try_reuse-Reusable reuse c after h = (refl, of_found _ c after refl h)
