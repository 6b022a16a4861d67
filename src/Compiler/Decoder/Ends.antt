-- ===== src/Compiler/Decoder/Ends.antt =====
-- Reading a manifest ends, with a manifest or an error of its own, and accepts only the whole of
-- what was written.
use optic.Prelude.{
  ℕ, zero, suc, ◌≤◌, ◌<◌, ◌≢◌, ◌≡◌, refl, sym, ap, ◌∙◌, ok, err, arith, Result, Option, List, [],
  ◌∷◌, ◌++◌, length, ◌==◌, Bool, true, false,
}
use optic.Prelude.Text.{Text}
use optic.Records.Validation.{FilePath}
use optic.Store.{IoError}
use optic.Compiler.Wire.{
  Input, Decode, Failure, exhausted, lift, continue, ◌>>=◌, pure, read_u32, require_end_of_file,
  nothing_behind,
}
use optic.Compiler.Wire.Sound.{
  followed, continue-ok, continue-real, lift-IsDecoder, read_u32-IsDecoder, read_u32-less,
}
use optic.Compiler.Protocol.{end_record}
use optic.Compiler.Manifest.{Configuration, CompilerManifest, Progress, no_records, complete}
use optic.Compiler.Decoder.{
  read_header, read_configuration, read_record, on_kind, read_records, read_all, read_body,
  read_manifest,
}
use optic.Compiler.Decoder.Sound.{
  read_header-IsDecoder, read_configuration-IsDecoder, read_record-IsDecoder,
}

module _ (path : FilePath) where
  require_end_of_file-real : (s : Input) → require_end_of_file path s ≢ err exhausted
  unfolding require_end_of_file
  require_end_of_file-real s = (lift-IsDecoder (nothing_behind path s.bytes s.ending)).real s

  require_end_of_file-ok :
      (s t : Input) {a : Unit {0}} → require_end_of_file path s ≡ ok (a, t) → s.bytes ≡ []
  unfolding require_end_of_file
  require_end_of_file-ok s t {a = a} h = whole s.bytes s.ending h
    where
      whole :
          (bytes : List ℕ) (ending : Option IoError)
          → lift (nothing_behind path bytes ending) s ≡ ok (a, t)
          → bytes ≡ []
      whole [] ending k = refl
      whole (_ ∷ _) ending k = absurd (cc k)

  module _ (configuration : Configuration) where
    on_kind-real :
        (kind : ℕ) (p : Progress) (next : Progress → Decode Progress) (b : Bool) (s : Input)
        → ((q : Progress) (t : Input) → length t.bytes ≤ length s.bytes → next q t ≢ err exhausted)
        → on_kind path configuration kind p next b s ≢ err exhausted
    on_kind-real kind p next true s h =
        continue-real (require_end_of_file path s) (λ _. pure p) (require_end_of_file-real s)
          (λ a t _ k. cc k)
    on_kind-real kind p next false s h =
        let d = read_record-IsDecoder path configuration kind p in
        continue-real (read_record path configuration kind p s) next (d.real s)
          (λ q t e. h q t (d.shrinks s t q e))

    read_records-real :
        (fuel : ℕ) (p : Progress) (s : Input)
        → length s.bytes < fuel
        → read_records path configuration fuel p s ≢ err exhausted
    unfolding read_records
    read_records-real zero p s h = absurd (omega (arith, h))
    read_records-real (suc fuel) p s h =
        continue-real (read_u32 path "record kind" s)
          (λ kind.
            on_kind path configuration kind p (read_records path configuration fuel)
              (kind == end_record))
          ((read_u32-IsDecoder path "record kind").real s)
          (λ kind t e.
            on_kind-real kind p (read_records path configuration fuel) (kind == end_record) t
              (λ q u le.
                read_records-real fuel q u
                  (omega (arith, h, le, read_u32-less path "record kind" s t e))))

    -- What a round does, it does with more bytes behind it, but for the end of the file.
    on_kind-whole :
        (kind : ℕ) (p q q' : Progress) (next next' : Progress → Decode Progress) (b : Bool)
        (s t t' : Input) (more : List ℕ) (ending : Option IoError)
        → ((p' : Progress) (u : Input)
            → next p' u ≡ ok (q, t)
            → next' p' (followed u more ending) ≡ ok (q', t')
            → more ≡ [])
        → on_kind path configuration kind p next b s ≡ ok (q, t)
        → on_kind path configuration kind p next' b (followed s more ending) ≡ ok (q', t')
        → more ≡ []
    on_kind-whole kind p q q' next next' true s t t' more ending ih h h' =
        let (_, u, first, _) = continue-ok (require_end_of_file path s) (λ _. pure p) h in
        let (_, u', first', _) =
          continue-ok (require_end_of_file path (followed s more ending)) (λ _. pure p) h' in
        let empty = require_end_of_file-ok s u first in
        let all_empty = require_end_of_file-ok (followed s more ending) u' first' in
        sym (ap (λ l. l ++ more) empty) ∙ all_empty
    on_kind-whole kind p q q' next next' false s t t' more ending ih h h' =
        let (p', u, first, second) = continue-ok (read_record path configuration kind p s) next h in
        let same =
          (read_record-IsDecoder path configuration kind p).extends s u p' more ending first in
        ih p' u second (sym (ap (λ r. continue r next') same) ∙ h')

    read_records-whole :
        (fuel more_fuel : ℕ) (p q q' : Progress) (s t t' : Input) (more : List ℕ)
        (ending : Option IoError)
        → read_records path configuration fuel p s ≡ ok (q, t)
        → read_records path configuration more_fuel p (followed s more ending) ≡ ok (q', t')
        → more ≡ []
    unfolding read_records
    read_records-whole zero _ p q q' s t t' more ending h h' = absurd (cc h)
    read_records-whole (suc fuel) zero p q q' s t t' more ending h h' = absurd (cc h')
    read_records-whole (suc fuel) (suc more_fuel) p q q' s t t' more ending h h' =
        let round = λ (f : ℕ) (kind : ℕ).
          on_kind path configuration kind p (read_records path configuration f)
            (kind == end_record) in
        let (kind, u, first, second) = continue-ok (read_u32 path "record kind" s) (round fuel) h in
        let same = (read_u32-IsDecoder path "record kind").extends s u kind more ending first in
        on_kind-whole kind p q q' (read_records path configuration fuel)
          (read_records path configuration more_fuel) (kind == end_record) u t t' more ending
          (λ p' v. read_records-whole fuel more_fuel p' q q' v t t' more ending) second
          (sym (ap (λ r. continue r (round more_fuel)) same) ∙ h')

  module _ (marker : Text) where
    -- The body behind the configuration.
    abbrev records_of : Configuration → Decode CompilerManifest
    records_of configuration = read_all path configuration >>= λ p. lift (complete configuration p)

    records_of-real : (c : Configuration) (s : Input) → records_of c s ≢ err exhausted
    records_of-real c s =
        continue-real (read_all path c s) (λ p. lift (complete c p))
          (read_records-real c (suc (length s.bytes)) no_records s (omega arith))
          (λ p t _. (lift-IsDecoder (complete c p)).real t)

    records_of-whole :
        (c : Configuration) (s t t' : Input) (m m' : CompilerManifest) (more : List ℕ)
        (ending : Option IoError)
        → records_of c s ≡ ok (m, t)
        → records_of c (followed s more ending) ≡ ok (m', t')
        → more ≡ []
    records_of-whole c s t t' m m' more ending h h' =
        let all = followed s more ending in
        let (p, u, first, _) = continue-ok (read_all path c s) (λ p. lift (complete c p)) h in
        let (p', u', first', _) = continue-ok (read_all path c all) (λ p. lift (complete c p)) h' in
        read_records-whole c (suc (length s.bytes)) (suc (length all.bytes)) no_records p p' s u u'
          more ending first first'

    abbrev settings : Unit {0} → Decode CompilerManifest
    settings _ = read_configuration path >>= records_of

    read_body-real : (s : Input) → read_body path marker s ≢ err exhausted
    unfolding read_body
    read_body-real s =
        continue-real (read_header path marker s) settings
          ((read_header-IsDecoder path marker).real s)
          λ a t _.
            continue-real (read_configuration path t) records_of
              ((read_configuration-IsDecoder path).real t) (λ c u _. records_of-real c u)

    read_body-whole :
        (s t t' : Input) (m m' : CompilerManifest) (more : List ℕ) (ending : Option IoError)
        → read_body path marker s ≡ ok (m, t)
        → read_body path marker (followed s more ending) ≡ ok (m', t')
        → more ≡ []
    unfolding read_body
    read_body-whole s t t' m m' more ending h h' =
        let (a, u, first, second) = continue-ok (read_header path marker s) settings h in
        let (c, v, third, fourth) = continue-ok (read_configuration path u) records_of second in
        let header = (read_header-IsDecoder path marker).extends s u a more ending first in
        let middle = (read_configuration-IsDecoder path).extends u v c more ending third in
        records_of-whole c v t t' m m' more ending fourth (
          sym (ap (λ r. continue r records_of) middle)
          ∙ (sym (ap (λ r. continue r settings) header) ∙ h'))

    accepted :
        (s : Input) (m : CompilerManifest)
        → read_manifest path (ok s) marker ≡ ok m
        → (t : Input) × (read_body path marker s ≡ ok (m, t))
    unfolding read_manifest
    accepted s m h = of_result (read_body path marker s) h
      where
        of_result :
            (r : Result Failure (CompilerManifest × Input))
            → elim r as (λ _. Result Failure CompilerManifest) [
              | ok (manifest, _) ↦ ok manifest
              | err failure ↦ err failure
            ]
              ≡ ok m
            → (t : Input) × (r ≡ ok (m, t))
        of_result (ok (manifest, t)) k = (t, ground (arith, k))
        of_result (err e) k = absurd (cc k)

    -- Reading a manifest ends, whatever the file holds and however its reader ends: with a manifest
    -- or with an error of the source, never because the loop over the records has used up its fuel.
    pub read_manifest-ends :
        (opened : Result IoError Input) → read_manifest path opened marker ≢ err exhausted
    unfolding read_manifest
    read_manifest-ends (err e) = λ h. cc h
    read_manifest-ends (ok file) = λ h. read_body-real file (ground (arith, h))

    -- A manifest is accepted only whole: of bytes that are accepted, no beginning that lacks some of
    -- them is accepted, so neither a partial output nor a manifest with bytes behind it is.
    pub read_manifest-whole :
        (front back : List ℕ) (ending ending' : Option IoError) (m m' : CompilerManifest)
        → read_manifest path (ok (record { bytes = front ++ back; ending = ending' })) marker
          ≡ ok m'
        → back ≢ []
        → read_manifest path (ok (record { bytes = front; ending = ending })) marker ≢ ok m
    read_manifest-whole front back ending ending' m m' h' some_back h =
        let s : Input = record { bytes = front; ending = ending } in
        let (t, e) = accepted s m h in
        let (t', e') = accepted (followed s back ending') m' h' in
        some_back (read_body-whole s t t' m m' back ending' e e')
