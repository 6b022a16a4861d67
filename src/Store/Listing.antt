-- ===== src/Store/Listing.antt =====
-- crates/cargo-optic-store/src/captures.rs: the list of completed captures.
pub mod Order
pub mod Results
use Prim.Native.Nat.{compare, Ordering}
use optic.Prelude.{
  ℕ, Bool, true, false, not, Option, List, [], ◌∷◌, Result, ok, err, ◌>>=◌, ◌>>◌, ensure, map_err,
  if◌then◌else◌,
}
use optic.Prelude.Sorting.{cmp, then_with, sort_by}
use optic.Prelude.Text.{Text, codes}
use optic.Records.CaptureId
use optic.Records.CaptureId.{CaptureId}
use optic.Records.CaptureRecord.{CaptureRecord, RawCaptureRecord}
use optic.Records.InstanceManifest.{RawInstanceManifest}
use optic.Store.{
  StorePath, join, IoError, not_found, other, FileKind, is_dir, FileSystem, Error, filesystem,
  expected_capture_directory, invalid_capture_directory_name, invalid_capture_directory_id, root,
}
use optic.Store.Captures.{namespace_exists, read_capture_from_directory, require_instances_file}

-- `fs::DirEntry`: its name, and what asking for its type gives.
pub record DirEntry : Type 0 where
  pub name : Text
  pub file_type : Result IoError FileKind

abbrev pub captures_root : StorePath
captures_root = join root (codes "captures")

-- `into_string` is the parameter `is_unicode`.
unfoldable pub capture_id_from_entry : (Text → Bool) → DirEntry → Result Error CaptureId
capture_id_from_entry is_unicode entry = do
  let path = join captures_root entry.name
  kind ← map_err (filesystem "read metadata for" path) entry.file_type
  ensure (is_dir kind) (expected_capture_directory path)
  ensure (is_unicode entry.name) (invalid_capture_directory_name path entry.name)
  map_err (λ _. invalid_capture_directory_id path entry.name) (CaptureId.parse entry.name)

-- The latest first, and by identifier among those of one time.
abbrev pub newest : {A : Type 0} → CaptureRecord A → CaptureRecord A → Ordering
newest left right =
    then_with (compare right.completed_at_unix_ms left.completed_at_unix_ms)
      (cmp left.id.text right.id.text)

module _ (fs : FileSystem) (read_dir : StorePath → Result IoError (List (Result IoError DirEntry)))
    (is_unicode : Text → Bool) {A : Type 0} (decode_capture : List ℕ → Option (RawCaptureRecord A))
    (decode_manifest : List ℕ → Option RawInstanceManifest) where
  -- The body of the loop.
  unfoldable pub read_entry : Result IoError DirEntry → Result Error (CaptureRecord A)
  read_entry next = do
    entry ← map_err (filesystem "read" captures_root) next
    id ← capture_id_from_entry is_unicode entry
    capture ←
        read_capture_from_directory fs decode_capture decode_manifest
          (join captures_root entry.name) id
    _ ← require_instances_file fs (join captures_root entry.name)
    ok capture

  unfoldable pub read_entries :
      List (Result IoError DirEntry) → Result Error (List (CaptureRecord A))
  read_entries [] = ok []
  read_entries (next ∷ rest) = do
    capture ← read_entry next
    captures ← read_entries rest
    ok (capture ∷ captures)

  -- What `read_dir` gave.
  abbrev pub read_listing :
      Result IoError (List (Result IoError DirEntry)) → Result Error (List (CaptureRecord A))
  read_listing (ok entries) = do captures ← read_entries entries; ok (sort_by newest captures)
  read_listing (err not_found) = ok []
  read_listing (err (other text)) = err (filesystem "read" captures_root (other text))

  unfoldable pub list_captures : Result Error (List (CaptureRecord A))
  list_captures = do
    exists ← namespace_exists fs (codes "captures")
    if not exists then ok [] else read_listing (read_dir captures_root)
