-- ===== src/Compiler/Session/RoundTrip.antt =====
-- What the driver writes, the compiler crate reads back: from the writer's calls to the manifest.
use optic.Prelude.{
  ℕ, zero, suc, ◌≤◌, ◌<◌, ◌≡◌, refl, sym, ap, ◌∙◌, arith, false, Option, none, some, List, [], ◌∷◌,
  ◌++◌, append_assoc, append-nil, Result, ok, err, length, length-append, map_err, All, All-append,
  ◌==◌,
}
use optic.Prelude.Text.{Text}
use optic.Records.Validation.{FilePath}
use optic.Compiler.{Error}
use optic.Compiler.Protocol.{end_record, u32_max}
use optic.Compiler.Wire.{
  Input, Decode, failed, lift, continue, ◌>>=◌, read_u32, require_end_of_file,
}
use optic.Compiler.Format.{IsString, and_then, u32, u32_bytes, length-to_le_bytes}
use optic.Compiler.Writer
use optic.Compiler.Manifest
use optic.Compiler.Manifest.{Progress, CompilerManifest, no_records, complete}
use optic.Compiler.Decoder.{
  read_configuration, read_records, read_all, on_kind, read_body, read_manifest,
}
use optic.Compiler.Session.{
  Record, placement, source_file, expected_module, MonoItem, function, other, CodegenUnit,
  item_records, unit_records, module_records, extension, file_records, IsRecord, IsItem, IsUnit,
  IsConfiguration, accept, accept_all, configuration_of, manifest_of, write_manifest,
}
use optic.Compiler.Session.Fields.{
  header_fields, configuration_fields, record_kind, record_fields, record_bytes, records_bytes,
}
use optic.Compiler.Session.Writing.{write_manifest-ok}
use optic.Compiler.Session.Reading.{header-Reads, configuration-Reads, record-Reads}

-- Every call of the writer is given what the types of its source allow.
All-file_records :
    (files : List (ℕ × ℕ))
    → All (λ file. IsRecord (source_file file.0 file.1)) files
    → All IsRecord (file_records files)
All-file_records [] h = tt
All-file_records (file ∷ files) (h, t) = (h, All-file_records files t)

All-item_records :
    (unit : Text) (items : List MonoItem)
    → All (IsItem unit) items
    → All IsRecord (item_records unit items)
unfolding item_records
All-item_records unit [] h = tt
All-item_records unit (other ∷ items) (_, t) = All-item_records unit items t
All-item_records unit (function item ∷ items) ((files, own), t) =
    All-append IsRecord (file_records item.new_files) _ (All-file_records item.new_files files)
      (own, All-item_records unit items t)

All-module_records :
    (o : Option Text) (unit : CodegenUnit) → IsUnit unit → All IsRecord (module_records o unit)
All-module_records none unit h = tt
All-module_records (some _) unit (hn, hb, _) = ((hn, hb), tt)

pub All-unit_records :
    (c : Writer.Configuration) (units : List CodegenUnit)
    → All IsUnit units
    → All IsRecord (unit_records c units)
unfolding unit_records
All-unit_records c [] h = tt
All-unit_records c (unit ∷ units) (h, t) =
    All-append IsRecord (module_records (extension c) unit) _
      (All-module_records (extension c) unit h)
      (All-append IsRecord (item_records unit.name unit.items) _
        (All-item_records unit.name unit.items h.2) (All-unit_records c units t))

record_kind-real : (r : Record) → (record_kind r == end_record) ≡ false
record_kind-real (placement concrete unit item origin) = refl
record_kind-real (source_file id byte_length) = refl
record_kind-real (expected_module name file) = refl

-- A record has a byte at least.
length-records_bytes : (rs : List Record) → length rs ≤ length (records_bytes rs)
length-records_bytes [] = omega arith
length-records_bytes (r ∷ rs) = omega (
  arith,
  length-append (record_bytes r) (records_bytes rs),
  length-append (u32_bytes (record_kind r)) (record_fields r),
  length-to_le_bytes 4 (record_kind r),
  length-records_bytes rs,
)

record_kind-le : (r : Record) → record_kind r ≤ u32_max
record_kind-le (placement concrete unit item origin) = omega arith
record_kind-le (source_file id byte_length) = omega arith
record_kind-le (expected_module name file) = omega arith

abbrev only : List ℕ → Input
only bytes = record { bytes = bytes; ending = none }

module _ (path : FilePath) (c : Manifest.Configuration) where
  -- The rest of a round, on what is left of the input.
  after_kind :
      (r : Record) (p : Progress) (rest : List ℕ) (fuel : ℕ)
      → IsRecord r
      → on_kind path c
          (record_kind r)
          p
          (read_records path c fuel)
          false
          (only (record_fields r ++ rest))
        ≡ continue (lift (accept path c r p) (only rest)) (read_records path c fuel)
  after_kind r p rest fuel h =
      ap (λ s. continue s (read_records path c fuel)) ((record-Reads path c r p h).reads rest none)

  -- The next rounds, where the record is accepted.
  next_records :
      (result : Result Error Progress) (rs : List Record) (rest : List ℕ) (fuel : ℕ)
      → ((q : Progress)
          → read_records path c fuel q (only rest) ≡ lift (accept_all path c rs q) (only []))
      → continue (lift result (only rest)) (read_records path c fuel)
        ≡ lift (and_then result (accept_all path c rs)) (only [])
  next_records (ok q) rs rest fuel ih = ih q
  next_records (err e) rs rest fuel ih = refl

  abbrev round : ℕ → Progress → ℕ → Decode Progress
  round fuel p kind = on_kind path c kind p (read_records path c fuel) (kind == end_record)

  records_read :
      (rs : List Record) (p : Progress) (fuel : ℕ)
      → length rs < fuel
      → All IsRecord rs
      → read_records path c fuel p (only (records_bytes rs ++ u32_bytes end_record))
        ≡ lift (accept_all path c rs p) (only [])
  unfolding read_records require_end_of_file
  records_read rs p zero h all = absurd (omega (arith, h))
  records_read [] p (suc fuel) h all =
      ap (λ (bytes : List ℕ). continue (read_u32 path "record kind" (only bytes)) (round fuel p))
        (sym (append-nil (u32_bytes end_record)))
      ∙ ap (λ s. continue s (round fuel p))
          ((u32 path "record kind" end_record (omega arith)).reads [] none)
  records_read (r ∷ rs) p (suc fuel) h (hr, all) =
      let kind = record_kind r in
      let rest = records_bytes rs ++ u32_bytes end_record in
      let behind = record_fields r ++ rest in
      ap (λ (bytes : List ℕ). continue (read_u32 path "record kind" (only bytes)) (round fuel p))
        (append_assoc (record_bytes r) (records_bytes rs) (u32_bytes end_record)
          ∙ append_assoc (u32_bytes kind) (record_fields r) rest)
      ∙ ap (λ s. continue s (round fuel p))
          ((u32 path "record kind" kind (record_kind-le r)).reads behind none)
      ∙ ap (λ b. on_kind path c kind p (read_records path c fuel) b (only behind))
          (record_kind-real r)
      ∙ after_kind r p rest fuel hr
      ∙ next_records (accept path c r p) rs rest fuel
          (λ q. records_read rs q fuel (omega (arith, h)) all)

module _ (path : FilePath) where
  abbrev bytes_of : Writer.Configuration → List Record → List ℕ
  bytes_of c rs = configuration_fields c ++ (records_bytes rs ++ u32_bytes end_record)

  -- Behind the configuration.
  records_of-read :
      (c : Manifest.Configuration) (rs : List Record)
      → All IsRecord rs
      → continue
          (read_all path c (only (records_bytes rs ++ u32_bytes end_record)))
          (λ p. lift (complete c p))
        ≡ lift (and_then (accept_all path c rs no_records) (complete c)) (only [])
  records_of-read c rs all =
      ap (λ s. continue s (λ p. lift (complete c p)))
        (records_read path c rs no_records (suc (length (records_bytes rs ++ u32_bytes end_record)))
          (omega (
            arith,
            length-records_bytes rs,
            length-append (records_bytes rs) (u32_bytes end_record),
          ))
          all)
      ∙ finished (accept_all path c rs no_records)
    where
      finished :
          (r : Result Error Progress)
          → continue (lift r (only [])) (λ p. lift (complete c p))
            ≡ lift (and_then r (complete c)) (only [])
      finished (ok p) = refl
      finished (err e) = refl

  body-read :
      (marker : Text) (c : Writer.Configuration) (units : List CodegenUnit)
      → IsString marker
      → IsConfiguration c
      → All IsUnit units
      → read_body path marker (only (header_fields marker ++ bytes_of c (unit_records c units)))
        ≡ lift (manifest_of path c units) (only [])
  unfolding read_body manifest_of
  body-read marker c units hm hc hu =
      let rs = unit_records c units in
      let rest = records_bytes rs ++ u32_bytes end_record in
      let records_of =
        λ (k : Manifest.Configuration). read_all path k >>= λ p. lift (complete k p) in
      ap (λ s. continue s (λ _. read_configuration path >>= records_of))
        ((header-Reads path marker hm).reads (bytes_of c rs) none)
      ∙ ap (λ s. continue s records_of) ((configuration-Reads path c hc).reads rest none)
      ∙ configured (configuration_of path c)
    where
      configured :
          (r : Result Error Manifest.Configuration)
          → continue
              (lift r (only (records_bytes (unit_records c units) ++ u32_bytes end_record)))
              (λ k. read_all path k >>= λ p. lift (complete k p))
            ≡ lift
                (and_then r (λ k.
                  and_then (accept_all path k (unit_records c units) no_records) (complete k)))
                (only [])
      configured (ok k) = records_of-read k (unit_records c units) (All-unit_records c units hu)
      configured (err e) = refl

read_manifest-body :
    (path : FilePath) (marker : Text) (s : Input) (r : Result Error CompilerManifest)
    → read_body path marker s ≡ lift r (only [])
    → read_manifest path (ok s) marker ≡ map_err failed r
unfolding read_manifest
read_manifest-body path marker s (ok m) e = rw (e, read_manifest)
read_manifest-body path marker s (err error) e = rw (e, read_manifest)

-- What the driver writes is read back. Where an analysis writes its manifest, with the strings and
-- numbers that its types allow, the file that was written at the temporary path has been moved to
-- the manifest's path, and reading it with the same marker gives the manifest that the analysis stands for, or the error for which its
-- records are refused.
pub read_manifest-write_manifest :
    (fs : Writer.FileSystem) (path temporary_path : FilePath) (marker : Text)
    (c : Writer.Configuration) (units : List CodegenUnit) (w : Writer.ManifestWriter)
    → IsString marker
    → IsConfiguration c
    → All IsUnit units
    → write_manifest fs path temporary_path (ok marker) c units ≡ ok w
    → (w.place ≡ path)
      × (read_manifest path (ok (record { bytes = w.file; ending = none })) marker
          ≡ map_err failed (manifest_of path c units))
read_manifest-write_manifest fs path temporary_path marker c units w hm hc hu h =
    let (file, published) = write_manifest-ok fs path temporary_path marker c units w h in
    (
      published,
      ap (λ (bytes : List ℕ). read_manifest path (ok (only bytes)) marker) file
          ∙ read_manifest-body path marker _ (manifest_of path c units)
              (body-read path marker c units hm hc hu),
    )
