-- ===== src/Capture/Outcomes.antt =====
-- What a capture returns is backed: a reused record by a fresh probe of the stored candidate, a new
-- one by the commit of its publication.
use optic.Prelude.{◌≡◌, refl, ap, subst, ℕ, none, some, [], Result, ok, err}
use optic.Records.CaptureId.{CaptureId}
use optic.Records.CaptureRecord.{CaptureRecord}
use optic.Records.CargoArtifactRecord.{CargoArtifactRecord}
use optic.Records.InstanceManifest.{InstanceManifest}
use optic.Store
use optic.Store.{FileSystem}
use optic.Store.Effects.{Os, Run}
use optic.Store.Publish.{initialize, publish, completed_of}
use optic.Store.Publish.Commit.{Committed, publish-Committed, initialize-Keeps}
use optic.Store.Publish.Sparing.{Spared, Keeps, keeps}
use optic.Compiler
use optic.Compiler.Collection.{CollectedBuild, into_manifest}
use optic.Compiler.Collection.Origin.{Origin, collect-Origin}
use optic.Compiler.Probe.{PreparedBuild}
use optic.Capture.{
  Error, CapturePolicy, reuse, force, CaptureOutcome, captured, reused, collect_with, Cargo, Json,
  Evidence, Reuse, verdict, found, try_reuse, capture,
}
use optic.Capture
use optic.Capture.Reusing.{Reusable, try_reuse-Reusable}

module _ (cargo : Cargo) (json : Json) where
  module _ {W : Type 0} (os : Os W) (id : CaptureId) (completed_at_unix_ms : ℕ)
      (policy : CapturePolicy) (start : Run W) where
    -- The store as the search for a candidate reads it.
    abbrev pub before_search : Run W
    before_search = (initialize os start).1

    -- A capture that is reused, where only the initialization has changed the store.
    pub record Reused (c : CaptureRecord CargoArtifactRecord) (run : Run W) : Type 0 where
      pub asked : policy ≡ reuse
      pub prepared : PreparedBuild
      pub preparation : cargo.prepare_build ≡ ok prepared
      pub candidate : Reusable cargo json prepared (os.observe before_search.world) c
      pub no_writes : run ≡ before_search

    -- A new capture of what Cargo has built, after no candidate could be reused.
    pub record Captured (c : CaptureRecord CargoArtifactRecord) (run : Run W) : Type 0 where
      pub prepared : PreparedBuild
      pub preparation : cargo.prepare_build ≡ ok prepared
      pub left : PreparedBuild
      pub no_candidate :
          try_reuse cargo json policy prepared (os.observe before_search.world) ≡ ok (none, left)
      pub build : CollectedBuild
      pub origin :
          Origin cargo.orders cargo.path cargo.owner cargo.target cargo.terminal cargo.tools left
            cargo.token build
      pub content : c ≡ Capture.capture_of cargo json os id completed_at_unix_ms build
      pub commit : Committed id c.analysis.request_key (ok tt, run)

    abbrev pub Outcome : Result Error CaptureOutcome × Run W → Type 0
    Outcome (err e, run) = Spared (completed_of id) run
    Outcome (ok (reused c), run) = Reused c run
    Outcome (ok (captured c), run) = Captured c run

    Keeps-Spared :
        (x : Result Store.Error (Unit {0}) × Run W)
        → Keeps (completed_of id) x
        → Spared (completed_of id) x.1
    Keeps-Spared _ (keeps r run h) = h

    module _ (prepared left : PreparedBuild) (b : CollectedBuild)
        (hp : cargo.prepare_build ≡ ok prepared)
        (hn : try_reuse cargo json policy prepared (os.observe before_search.world)
          ≡ ok (none, left))
        (hb : collect_with cargo left ≡ ok b) where
      abbrev new_capture : CaptureRecord CargoArtifactRecord
      new_capture = Capture.capture_of cargo json os id completed_at_unix_ms b

      of_publish :
          (x : Result Store.Error (Unit {0}) × Run W)
          → Committed id new_capture.analysis.request_key x
          → Outcome (Capture.published cargo json os id completed_at_unix_ms new_capture x)
      unfolding collect_with
      of_publish (err e, run) h = h
      of_publish (ok _, run) h = record {
        prepared = prepared;
        preparation = hp;
        left = left;
        no_candidate = hn;
        build = b;
        origin =
            collect-Origin cargo.orders cargo.path cargo.owner cargo.target cargo.terminal
              cargo.tools left cargo.token b hb;
        content = refl;
        commit = h;
      }

      of_manifest :
          (m : Result Compiler.Error InstanceManifest) (run : Run W)
          → Spared (completed_of id) run
          → Outcome (Capture.save cargo json os id completed_at_unix_ms b run m)
      of_manifest (err e) run h = h
      of_manifest (ok m) run h =
          of_publish
            (publish os json.encode_capture json.encode_manifest json.encode_pointer new_capture m
              (cargo.place b.temporary) run)
            (publish-Committed os json.encode_capture json.encode_manifest json.encode_pointer
              new_capture m (cargo.place b.temporary) run h)

    of_collection :
        (prepared left : PreparedBuild) (b : Result Compiler.Error CollectedBuild)
        → cargo.prepare_build ≡ ok prepared
        → try_reuse cargo json policy prepared (os.observe before_search.world) ≡ ok (none, left)
        → collect_with cargo left ≡ b
        → Spared (completed_of id) before_search
        → Outcome (Capture.collected cargo json os id completed_at_unix_ms before_search b)
    of_collection prepared left (err e) hp hn hb h = h
    of_collection prepared left (ok b) hp hn hb h =
        of_manifest prepared left b hp hn hb (into_manifest id b) before_search h

    of_decision :
        (prepared : PreparedBuild) (r : Result Error Reuse)
        → cargo.prepare_build ≡ ok prepared
        → try_reuse cargo json policy prepared (os.observe before_search.world) ≡ r
        → Spared (completed_of id) before_search
        → Outcome (Capture.decided cargo json os id completed_at_unix_ms before_search r)
    of_decision prepared (err e) hp hr h = h
    of_decision prepared (ok (some c, after)) hp hr h =
        let (asked, candidate) = try_reuse-Reusable cargo json prepared _ policy c after hr in
        record {
          asked = asked;
          prepared = prepared;
          preparation = hp;
          candidate = candidate;
          no_writes = refl;
        }
    of_decision prepared (ok (none, left)) hp hr h =
        of_collection prepared left (collect_with cargo left) hp hr refl h

    of_initialization :
        (prepared : PreparedBuild) (x : Result Store.Error (Unit {0}) × Run W)
        → cargo.prepare_build ≡ ok prepared
        → initialize os start ≡ x
        → Spared (completed_of id) x.1
        → Outcome (Capture.initialized cargo json os id completed_at_unix_ms policy prepared x)
    of_initialization prepared (err e, run) hp hx h = h
    of_initialization prepared (ok _, run) hp hx h =
        subst
          (λ (r : Run W).
            Spared (completed_of id) r
            → Outcome (
                Capture.decided cargo json os id completed_at_unix_ms r
                  (try_reuse cargo json policy prepared (os.observe r.world))))
          (ap (λ (y : Result Store.Error (Unit {0}) × Run W). y.1) hx)
          (of_decision prepared
            (try_reuse cargo json policy prepared (os.observe before_search.world)) hp refl)
          h

    of_preparation :
        (p : Result Compiler.Error PreparedBuild)
        → cargo.prepare_build ≡ p
        → Spared (completed_of id) start
        → Outcome (Capture.prepared_as cargo json os id completed_at_unix_ms policy start p)
    of_preparation (err e) hp h = h
    of_preparation (ok prepared) hp h =
        of_initialization prepared (initialize os start) hp refl
          (Keeps-Spared (initialize os start) (initialize-Keeps os id start h))

  -- Whatever Cargo, the decoders and the operating system do, a capture ends in one of three ways. If
  -- it fails, no change that has succeeded made, wrote or flushed anything at the directory of the
  -- completed capture of its identifier or below it, or moved anything from there or to there, or a
  -- directory above it. If it reuses a capture, reuse was asked for, the capture is the stored
  -- candidate of the prepared request, a probe of it has found Cargo's artifact to be fresh and equal
  -- to the stored one, and only the initialization of the store has made changes. If it returns a new
  -- capture, no candidate could be reused, the record is made of what one run of Cargo under the new
  -- token has built and its driver has written, and the last change commits it, behind the
  -- replacement of the candidate's pointer and changes that leave the completed capture alone.
  pub capture-Outcome :
      {W : Type 0} (os : Os W) (id : CaptureId) (completed_at_unix_ms : ℕ) (policy : CapturePolicy)
      (w : W)
      → Outcome os id completed_at_unix_ms policy
          (record { world = w; changes = [] })
          (capture cargo json os id completed_at_unix_ms policy
            (record { world = w; changes = [] }))
  unfolding capture
  capture-Outcome os id completed_at_unix_ms policy w =
      of_preparation os id completed_at_unix_ms policy (record { world = w; changes = [] })
        cargo.prepare_build refl tt
