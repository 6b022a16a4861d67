-- ===== src/Store/Candidate/Agreement.antt =====
-- A candidate agrees with what is read of its capture by identifier.
use optic.Prelude.{
  ℕ, Bool, true, false, not, Option, none, some, List, ◌≡◌, refl, sym, ap, subst, ◌∙◌, arith,
  Result, ok, err, >>=-ok, Passes, ok-inj, if◌then◌else◌,
}
use optic.Prelude.Text.{codes}
use optic.Records.AnalysisToken.{analysis_token_eq}
use optic.Records.CaptureId.{CaptureId, capture_id_eq}
use optic.Records.CaptureKey.{CaptureKey, capture_key_eq}
use optic.Records.CaptureRecord.{CaptureRecord, RawCaptureRecord}
use optic.Records.InstanceManifest
use optic.Records.InstanceManifest.{InstanceManifest, RawInstanceManifest}
use optic.Store.{StorePath, join, FileSystem, Error, max_instances_bytes, instances_file_name}
use optic.Store.RecordIo.{read_record, read_record_sound}
use optic.Store.Captures.{
  namespace_exists, capture_directory, require_instances_file, read_capture_from_directory,
  validate_capture_scope, validate_artifacts, read_capture, read_instances,
}
use optic.Store.Laws.{capture_scope}
use optic.Store.Candidate.{
  CandidatePointer, candidate_path, is_absent, is_unknown_capture, or_miss, check_pointer,
  check_capture, read_pointer, read_evidence, read_candidate,
}

some-inj : {B : Type 0} (a b : B) → some a ≡ some b → a ≡ b
some-inj a b h = cc

existing :
    {B : Type 0} (exists : Bool) (r : Result Error (Option B)) (b : B)
    → (if not exists then ok none else r) ≡ ok (some b)
    → r ≡ ok (some b)
existing true r b h = h
existing false r b h = absurd (ground (arith, h))

or_miss-some :
    {A B : Type 0} (misses : Error → Bool) (r : Result Error A) (next : A → Result Error (Option B))
    (b : B)
    → or_miss misses r next ≡ ok (some b)
    → (a : A) × (r ≡ ok a) × (next a ≡ ok (some b))
or_miss-some misses (ok a) next b h = (a, refl, h)
or_miss-some misses (err e) next b h = absurd (ground (arith, h))

module _ (fs : FileSystem) {A : Type 0} (decode_capture : List ℕ → Option (RawCaptureRecord A))
    (decode_manifest : List ℕ → Option RawInstanceManifest)
    (decode_pointer : List ℕ → Option CandidatePointer) where
  key_of :
      (key : CaptureKey) (pointer : CandidatePointer) (c : CaptureRecord A)
      → Passes (check_capture key pointer c)
      → c.analysis.request_key ≡ key
  unfolding check_capture
  key_of key pointer c h = ground (arith, capture_key_eq.beq_iff c.analysis.request_key key)

  -- The manifest's file is there, for it was read.
  manifest_there :
      (directory : StorePath) (m : InstanceManifest)
      → read_record decode_manifest InstanceManifest.try_from fs
          (join directory instances_file_name)
          max_instances_bytes
        ≡ ok m
      → require_instances_file fs directory ≡ ok (join directory instances_file_name)
  unfolding require_instances_file
  manifest_there directory m h =
      let (metadata, _, _, found, regular, _, _, _) =
        read_record_sound decode_manifest InstanceManifest.try_from fs
          (join directory instances_file_name) max_instances_bytes m h in
      rw (found, regular) refl

  -- The reads by identifier, from their parts.
  reads :
      (id : CaptureId) (directory : StorePath) (c : CaptureRecord A) (m : InstanceManifest)
      → capture_directory fs id ≡ ok directory
      → read_capture_from_directory fs decode_capture decode_manifest directory id ≡ ok c
      → read_record decode_manifest InstanceManifest.try_from fs
          (join directory instances_file_name)
          max_instances_bytes
        ≡ ok m
      → Passes (validate_capture_scope (join directory instances_file_name) id m.capture_id)
      → Passes (validate_artifacts fs directory m)
      → (read_capture fs decode_capture decode_manifest id ≡ ok c)
        × (read_instances fs decode_capture decode_manifest id ≡ ok m)
  unfolding read_capture read_instances
  reads id directory c m located headed read scope files =
      let there = manifest_there directory m read in
      (rw (located, headed, there) refl, rw (located, headed, there, read, scope, files) refl)

  -- The evidence that the pointer's directory holds.
  evidence_agrees :
      (key : CaptureKey) (pointer : CandidatePointer) (directory : StorePath) (c : CaptureRecord A)
      (m : InstanceManifest)
      → capture_directory fs pointer.capture_id ≡ ok directory
      → read_evidence fs decode_capture decode_manifest decode_pointer key pointer directory
        ≡ ok (c, m)
      → (c.analysis.request_key ≡ key)
        × (read_capture fs decode_capture decode_manifest c.id ≡ ok c)
        × (read_instances fs decode_capture decode_manifest c.id ≡ ok m)
  unfolding read_evidence check_capture
  evidence_agrees key pointer directory c m located h =
      let (d, headed, rest) =
        >>=-ok
          (read_capture_from_directory fs decode_capture decode_manifest directory
            pointer.capture_id)
          _ h in
      let (_, checked, rest) = >>=-ok (check_capture key pointer d) _ rest in
      let (n, read, rest) =
        >>=-ok
          (read_record decode_manifest InstanceManifest.try_from fs
            (join directory instances_file_name) max_instances_bytes)
          _ rest in
      let (_, scope, rest) =
        >>=-ok (validate_capture_scope (join directory instances_file_name) d.id n.capture_id) _
          rest in
      let (_, files, same) = >>=-ok (validate_artifacts fs directory n) _ rest in
      let e = ok-inj (ok (d, n)) refl same in
      let own =
        sym (
          capture_scope fs A decode_capture decode_manifest directory pointer.capture_id d
            headed) in
      let (r, r') =
        reads d.id directory d n (subst (λ id. capture_directory fs id ≡ ok directory) own located)
          (subst
            (λ id.
              read_capture_from_directory fs decode_capture decode_manifest directory id ≡ ok d)
            own headed)
          read scope files in
      subst
        (λ (x : CaptureRecord A × InstanceManifest).
          (x.0.analysis.request_key ≡ key)
          × (read_capture fs decode_capture decode_manifest x.0.id ≡ ok x.0)
          × (read_instances fs decode_capture decode_manifest x.0.id ≡ ok x.1))
        e (key_of key pointer d checked, r, r')

  -- A candidate is the capture of the request, and the manifest that its identifier leads to.
  pub candidate_agrees :
      (key : CaptureKey) (c : CaptureRecord A) (m : InstanceManifest)
      → read_candidate fs decode_capture decode_manifest decode_pointer key ≡ ok (some (c, m))
      → (c.analysis.request_key ≡ key)
        × (read_capture fs decode_capture decode_manifest c.id ≡ ok c)
        × (read_instances fs decode_capture decode_manifest c.id ≡ ok m)
  unfolding read_candidate
  candidate_agrees key c m h =
      let (exists, _, rest) = >>=-ok (namespace_exists fs (codes "candidates")) _ h in
      let (pointer, _, rest) =
        or_miss-some is_absent
          (read_pointer fs decode_capture decode_manifest decode_pointer (candidate_path key)) _
          (c, m) (existing exists _ (c, m) rest) in
      let (_, _, rest) = >>=-ok (check_pointer key pointer) _ rest in
      let (directory, located, rest) =
        or_miss-some is_unknown_capture (capture_directory fs pointer.capture_id) _ (c, m) rest in
      let (evidence, read, same) =
        >>=-ok
          (read_evidence fs decode_capture decode_manifest decode_pointer key pointer directory) _
          rest in
      evidence_agrees key pointer directory c m located
        (read ∙ ap ok (some-inj evidence (c, m) (ok-inj (ok (some evidence)) refl same)))
