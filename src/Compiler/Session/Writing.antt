-- ===== src/Compiler/Session/Writing.antt =====
-- The writer writes exactly the bytes of each record, and where it succeeds it has written them all.
use optic.Prelude.{
  ℕ, ◌≡◌, refl, ap, ◌∙◌, Bool, true, false, Option, none, some, List, [], ◌∷◌, ◌++◌, append_assoc,
  append-nil, Result, ok, err, length, leb, ◌⊎◌, inl, inr, Bool-cases, if◌then◌else◌,
}
use optic.Prelude.Text.{Text, text_beq, text_beq_iff}
use optic.Records.Validation.{FilePath}
use optic.Store.{IoError}
use optic.Compiler.Protocol.{u32_max, placement_record, end_record, header}
use optic.Compiler.Format.{u32_bytes, u64_bytes, string_bytes}
use optic.Compiler.Writer.{
  FileSystem, ManifestWriter, Write, WriteError, next, ◌>>◌, done, guard, fallible, write_bytes,
  write_u32, write_u64, write_string, write_source, write_fields, write_placement,
  write_configuration, write_source_file, write_module, rename, Source, available, unavailable,
  ConcreteInstance, MonoItemData, create, finish, header_bytes,
}
use optic.Compiler.Writer
use optic.Compiler.Session.{
  CodegenUnit, unit_records, collect, write_manifest, Record, placement, source_file,
  expected_module, write_record, write_records,
}
use optic.Compiler.Session.Fields.{
  header_fields, source_fields, placement_fields, configuration_fields, record_bytes, records_bytes,
}

pub record Writes (bytes : List ℕ) (op : Write) : Type 0 where
  pub writes : (w w' : ManifestWriter) → op w ≡ ok w' → w' ≡ record w { file = w.file ++ bytes }

next-ok :
    (r : Result WriteError ManifestWriter) (k : Write) (w' : ManifestWriter)
    → next r k ≡ ok w'
    → (w : ManifestWriter) × (r ≡ ok w) × (k w ≡ ok w')
next-ok (ok w) k w' h = (w, refl, h)
next-ok (err e) k w' h = absurd (cc h)

pub then-Writes : {a b : List ℕ} {m k : Write} → Writes a m → Writes b k → Writes (a ++ b) (m >> k)
then-Writes {a} {b} {m} {k} hm hk = record {
  writes = λ w w' h.
      let (v, first, second) = next-ok (m w) k w' h in
      cc (hm.writes w v first, hk.writes v w' second, append_assoc w.file a b);
}

pub then_nothing : {b : List ℕ} {m k : Write} → Writes [] m → Writes b k → Writes b (m >> k)
then_nothing m k = then-Writes m k

pub guard-Writes : (b : Bool) (e : WriteError) → Writes [] (guard b e)
guard-Writes true e = record { writes = λ w w' h. cc (h, append-nil w.file) }
guard-Writes false e = record { writes = λ w w' h. absurd (cc h) }

pub fallible-Writes : (e : Option IoError) → Writes [] (fallible e)
fallible-Writes none = guard-Writes true (WriteError.panicked "")
fallible-Writes (some e) = record { writes = λ w w' h. absurd (cc h) }

module _ (fs : FileSystem) where
  write_bytes-Writes : (bytes : List ℕ) → Writes bytes (write_bytes fs bytes)
  unfolding write_bytes
  write_bytes-Writes bytes = record {
    writes = λ w w' h.
        let (v, first, second) =
          next-ok (fallible (fs.write_all w.file bytes) w)
            (λ v. ok (record v { file = v.file ++ bytes })) w' h in
        let same = (fallible-Writes (fs.write_all w.file bytes)).writes w v first in
        cc (same, second, append-nil w.file);
  }

  write_u32-Writes : (n : ℕ) → Writes (u32_bytes n) (write_u32 fs n)
  unfolding write_u32
  write_u32-Writes n = write_bytes-Writes (u32_bytes n)

  write_u64-Writes : (n : ℕ) → Writes (u64_bytes n) (write_u64 fs n)
  unfolding write_u64
  write_u64-Writes n = write_bytes-Writes (u64_bytes n)

  write_string-Writes : (s : Text) → Writes (string_bytes s) (write_string fs s)
  unfolding write_string
  write_string-Writes s =
      then_nothing (guard-Writes _ _)
        (then-Writes (write_u32-Writes (length s)) (write_bytes-Writes s))

  ruleset parts = (
    then-Writes, then_nothing, guard-Writes, write_bytes-Writes, write_u32-Writes, write_u64-Writes,
    write_string-Writes,
  )

  write_source-Writes : (origin : Source) → Writes (source_fields origin) (write_source fs origin)
  unfolding write_source
  write_source-Writes (available span) = search parts depth 16
  write_source-Writes (unavailable reason) = write_u32-Writes reason

  write_fields-Writes :
      (i : ConcreteInstance) (unit : Text) (item : MonoItemData)
      → Writes (placement_fields i unit item) (write_fields fs i unit item)
  unfolding write_fields
  write_fields-Writes i unit item = search parts depth 24

  pub write_configuration-Writes :
      (c : Writer.Configuration) → Writes (configuration_fields c) (write_configuration fs c)
  unfolding write_configuration
  write_configuration-Writes c = search parts depth 24

  write_record-Writes : (r : Record) → Writes (record_bytes r) (write_record fs r)
  unfolding write_placement write_source_file write_module
  write_record-Writes (placement concrete unit item origin) =
      then-Writes (write_u32-Writes placement_record)
        (then-Writes (write_fields-Writes concrete unit item) (write_source-Writes origin))
  write_record-Writes (source_file id byte_length) = search parts depth 10
  write_record-Writes (expected_module name file) = search parts depth 10

  pub write_records-Writes : (rs : List Record) → Writes (records_bytes rs) (write_records fs rs)
  write_records-Writes [] = guard-Writes true (WriteError.panicked "")
  write_records-Writes (r ∷ rs) = then-Writes (write_record-Writes r) (write_records-Writes rs)

  rename-ok :
      (w w' : ManifestWriter)
      → w.place ≡ w.temporary_path
      → rename fs w.temporary_path w.path w ≡ ok w'
      → w' ≡ record w { place = w.path }
  unfolding rename
  rename-ok w w' here h =
      let (v, first, second) =
        next-ok (fallible (fs.rename w.temporary_path w.path) w)
          (λ v.
            ok (record v { place = if text_beq v.place w.temporary_path then w.path else v.place }))
          w' h in
      let same = (fallible-Writes (fs.rename w.temporary_path w.path)).writes w v first in
      cc (same, second, append-nil w.file, (text_beq_iff w.place w.temporary_path).1 here)

  -- The end record is the last that is written, and then the file is moved to its path.
  finish-ok :
      (w w' : ManifestWriter)
      → w.place ≡ w.temporary_path
      → finish fs w ≡ ok w'
      → (w'.file ≡ w.file ++ u32_bytes end_record) × (w'.place ≡ w.path)
  unfolding finish
  finish-ok w w' here h =
      let (v, first, second) =
        next-ok (write_u32 fs end_record w)
          ((λ u. fallible (fs.flush u.file) u) >> λ u. rename fs u.temporary_path u.path u) w' h in
      let (u, third, fourth) =
        next-ok (fallible (fs.flush v.file) v) (λ u. rename fs u.temporary_path u.path u) w'
          second in
      let written = (write_u32-Writes end_record).writes w v first in
      let same = (fallible-Writes (fs.flush v.file)).writes v u third in
      let moved = rename-ok u w' (cc (written, same, here)) fourth in
      (cc (written, same, moved, append-nil v.file), cc (written, same, moved))

  header-cases :
      (marker : Text) → (header marker ≡ some (header_fields marker)) ⊎ (header marker ≡ none)
  unfolding header
  header-cases marker = elim (Bool-cases (leb (length marker) u32_max)) [
    | inl short ↦ inl (rw short)
    | inr long ↦ inr (rw long)
  ]

  header_bytes-ok :
      (o : Option (List ℕ)) (bytes : List ℕ) (v w : ManifestWriter)
      → (o ≡ some bytes) ⊎ (o ≡ none)
      → header_bytes fs o v ≡ ok w
      → w ≡ record v { file = v.file ++ bytes }
  header_bytes-ok none bytes v w e h = absurd (cc h)
  header_bytes-ok (some own) bytes v w (inl e) h = cc ((write_bytes-Writes own).writes v w h, e)
  header_bytes-ok (some own) bytes v w (inr e) h = absurd (cc e)

  -- A manifest that is created has its header, and stands at the temporary path.
  create-ok :
      (path temporary_path : FilePath) (marker : Text) (w : ManifestWriter)
      → create fs path temporary_path (ok marker) ≡ ok w
      → (w.file ≡ header_fields marker) × (w.path ≡ path) × (w.place ≡ w.temporary_path)
  unfolding create
  create-ok path temporary_path marker w h =
      let w0 : ManifestWriter = record {
        path = path;
        temporary_path = temporary_path;
        file = [];
        place = temporary_path;
      } in
      let (v, first, second) =
        next-ok (fallible (fs.create temporary_path) w0) (header_bytes fs (header marker)) w h in
      let opened = (fallible-Writes (fs.create temporary_path)).writes w0 v first in
      let written =
        header_bytes-ok (header marker) (header_fields marker) v w (header-cases marker) second in
      (
        ap (λ (u : ManifestWriter). u.file) written
            ∙ ap (λ (u : ManifestWriter). u.file ++ header_fields marker) opened,
        ap (λ (u : ManifestWriter). u.path) written ∙ ap (λ (u : ManifestWriter). u.path) opened,
        cc (written, opened),
      )

  analysis-Writes :
      (c : Writer.Configuration) (units : List CodegenUnit)
      → Writes
          (configuration_fields c ++ records_bytes (unit_records c units))
          (write_configuration fs c >> write_records fs (unit_records c units))
  analysis-Writes c units =
      then-Writes (write_configuration-Writes c) (write_records-Writes (unit_records c units))

  -- What an analysis has written when it ends, and where it stands.
  pub write_manifest-ok :
      (path temporary_path : FilePath) (marker : Text) (c : Writer.Configuration)
      (units : List CodegenUnit) (w : ManifestWriter)
      → write_manifest fs path temporary_path (ok marker) c units ≡ ok w
      → (w.file
          ≡ header_fields marker
            ++ (configuration_fields c
                ++ (records_bytes (unit_records c units) ++ u32_bytes end_record)))
        × (w.place ≡ path)
  unfolding write_manifest collect
  write_manifest-ok path temporary_path marker c units w h =
      let records = records_bytes (unit_records c units) in
      let analysis = write_configuration fs c >> write_records fs (unit_records c units) in
      let (v, first, rest) =
        next-ok (create fs path temporary_path (ok marker)) (analysis >> finish fs) w h in
      let (u, second, third) = next-ok (analysis v) (finish fs) w rest in
      let (header_there, own, here) = create-ok path temporary_path marker v first in
      let written = (analysis-Writes c units).writes v u second in
      let (file, place) = finish-ok u w (cc (written, here)) third in
      (
        cc (
          file,
          written,
          header_there,
          append_assoc (header_fields marker) (configuration_fields c ++ records)
              (u32_bytes end_record),
          append_assoc (configuration_fields c) records (u32_bytes end_record),
        ),
        cc (place, written, own),
      )
