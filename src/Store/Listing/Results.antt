-- ===== src/Store/Listing/Results.antt =====
-- What listing gives.
use mathlib.Core.List.{Perm}
use mathlib.Core.List.Perm
use optic.Prelude.{
  map, ℕ, Bool, false, Option, List, [], ◌≡◌, refl, sym, ap, subst, ◌∙◌, arith, Result, ok, err,
  >>=-ok, ok-inj, map_err, map_err-ok, ensure, All,
}
use optic.Prelude.Text.{Text, codes}
use optic.Records.CaptureId
use optic.Records.CaptureId.{CaptureId}
use optic.Records.CaptureRecord.{CaptureRecord, RawCaptureRecord}
use optic.Records.InstanceManifest.{RawInstanceManifest}
use optic.Store.{
  StorePath, join, IoError, not_found, is_dir, is_file, expected_instance_file, FileSystem,
  filesystem, expected_capture_directory, invalid_capture_directory_name,
  invalid_capture_directory_id, instances_file_name,
}
use optic.Store.Captures.{namespace_exists, read_capture_from_directory, require_instances_file}
use optic.Store.Laws.{capture_scope}
use optic.Store.Listing.Order.{Latest}
use optic.Store.Listing.{DirEntry, captures_root, capture_id_from_entry, read_entry}

parse-text : (value : Text) (id : CaptureId) → CaptureId.parse value ≡ ok id → id.text ≡ value
unfolding CaptureId.parse
parse-text value id h = ground arith

entry-id :
    (is_unicode : Text → Bool) (entry : DirEntry) (id : CaptureId)
    → capture_id_from_entry is_unicode entry ≡ ok id
    → id.text ≡ entry.name
unfolding capture_id_from_entry
entry-id is_unicode entry id h =
    let path = join captures_root entry.name in
    let (kind, _, rest) =
      >>=-ok (map_err (filesystem "read metadata for" path) entry.file_type) _ h in
    let (_, _, rest) = >>=-ok (ensure (is_dir kind) (expected_capture_directory path)) _ rest in
    let (_, _, rest) =
      >>=-ok (ensure (is_unicode entry.name) (invalid_capture_directory_name path entry.name)) _
        rest in
    parse-text entry.name id (
      map_err-ok (λ _. invalid_capture_directory_id path entry.name) (CaptureId.parse entry.name)
        rest)

required :
    (fs : FileSystem) (directory path : StorePath)
    → require_instances_file fs directory ≡ ok path
    → path ≡ join directory instances_file_name
unfolding require_instances_file
required fs directory path h =
    let (metadata, _, rest) =
      >>=-ok
        (map_err (filesystem "read metadata for" (join directory instances_file_name))
          (fs.symlink_metadata (join directory instances_file_name)))
        _ h in
    let (_, _, same) =
      >>=-ok
        (ensure (is_file metadata.kind)
          (expected_instance_file (join directory instances_file_name)))
        _ rest in
    sym (ok-inj (ok (join directory instances_file_name)) refl same)

module _ (fs : FileSystem) (read_dir : StorePath → Result IoError (List (Result IoError DirEntry)))
    (is_unicode : Text → Bool) {A : Type 0} (decode_capture : List ℕ → Option (RawCaptureRecord A))
    (decode_manifest : List ℕ → Option RawInstanceManifest) where
  -- The header in the directory of its identifier, beside a manifest file.
  abbrev pub IsListed : CaptureRecord A → Type 0
  IsListed c =
      (read_capture_from_directory fs decode_capture decode_manifest (join captures_root c.id.text)
          c.id
        ≡ ok c)
      × (require_instances_file fs (join captures_root c.id.text)
          ≡ ok (join (join captures_root c.id.text) instances_file_name))

  pub entry-IsListed :
      (next : Result IoError DirEntry) (c : CaptureRecord A)
      → read_entry fs read_dir is_unicode decode_capture decode_manifest next ≡ ok c
      → (entry : DirEntry) × (next ≡ ok entry) × (c.id.text ≡ entry.name) × IsListed c
  unfolding read_entry
  entry-IsListed next c h =
      let (entry, got, rest) = >>=-ok (map_err (filesystem "read" captures_root) next) _ h in
      let (id, named, rest) = >>=-ok (capture_id_from_entry is_unicode entry) _ rest in
      let directory = join captures_root entry.name in
      let (d, read, rest) =
        >>=-ok (read_capture_from_directory fs decode_capture decode_manifest directory id) _
          rest in
      let (path, there, same) = >>=-ok (require_instances_file fs directory) _ rest in
      let own = capture_scope fs A decode_capture decode_manifest directory id d read in
      let place =
        ap (λ n. join captures_root n)
          (sym (ap (λ (i : CaptureId). i.text) own ∙ entry-id is_unicode entry id named)) in
      let listed : IsListed d = (
        subst
            (λ i.
              read_capture_from_directory fs decode_capture decode_manifest
                (join captures_root d.id.text) i
              ≡ ok d)
            (sym own)
            (subst (λ p. read_capture_from_directory fs decode_capture decode_manifest p id ≡ ok d)
              place read),
        subst (λ p. require_instances_file fs p ≡ ok (join p instances_file_name)) place
            (there ∙ ap ok (required fs directory path there)),
      ) in
      let name = ap (λ (i : CaptureId). i.text) own ∙ entry-id is_unicode entry id named in
      let equal = ok-inj (ok d) refl same in
      (
        entry,
        map_err-ok (filesystem "read" captures_root) next got,
        subst (λ (x : CaptureRecord A). x.id.text ≡ entry.name) equal name,
        subst IsListed equal listed,
      )

  abbrev pub texts : List (CaptureRecord A) → List Text
  texts = map (λ (c : CaptureRecord A). c.id.text)

  abbrev pub names : List DirEntry → List Text
  names = map (λ (e : DirEntry). e.name)

  -- Every entry is read, and each gives one capture.
  abbrev AllRead : List (Result IoError DirEntry) → List (CaptureRecord A) → Type 0
  AllRead found cs =
      (entries : List DirEntry) × (found ≡ map ok entries)
      × (texts cs ≡ names entries)
      × All IsListed cs

  -- The captures of all entries of the directory, the latest first.
  abbrev OfEntries : List (Result IoError DirEntry) → List (CaptureRecord A) → Type 0
  OfEntries found cs =
      (entries : List DirEntry) × (found ≡ map ok entries)
      × Perm (texts cs) (names entries)
      × All IsListed cs
      × Latest cs

  -- What a list is: no directory is there and it is empty, or it has the captures of all entries.
  pub data IsListing (cs : List (CaptureRecord A)) : Type 0 where
    no_namespace : namespace_exists fs (codes "captures") ≡ ok false → cs ≡ [] → IsListing cs
    no_directory : read_dir captures_root ≡ err not_found → cs ≡ [] → IsListing cs
    all_entries :
        (entries : List DirEntry)
        → read_dir captures_root ≡ ok (map ok entries)
        → Perm (texts cs) (names entries)
        → All IsListed cs
        → Latest cs
        → IsListing cs
