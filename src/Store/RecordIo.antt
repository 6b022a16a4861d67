-- ===== src/Store/RecordIo.antt =====
-- crates/cargo-optic-store/src/record_io.rs: reading a record within its budget. `decode` is
-- `serde_json::from_slice` into the raw form, and `convert` the record's `TryFrom`.
pub mod Budget
use optic.Prelude.{
  ℕ, true, ◌+◌, ◌≤◌, not, Option, some, List, ◌≡◌, arith, Result, ok, ◌>>=◌, ◌>>◌, >>=-ok, ensure,
  map_err, map_err-ok, ok_or, length, ltb,
}
use optic.Records.Error.{Checked}
use optic.Store.{
  IoError, StorePath, FileSystem, Metadata, is_file, Error, filesystem, unexpected_file_type,
  record_too_large, json,
}

module _ {Raw A : Type 0} (decode : List ℕ → Option Raw) (convert : Raw → Checked A) where
  -- A value that the conversion rejects is a JSON error as well.
  unfoldable pub from_slice : StorePath → List ℕ → Result Error A
  from_slice path bytes = do
    raw ← ok_or (decode bytes) (json path)
    map_err (λ _. json path) (convert raw)

  unfoldable pub read_bounded_record :
      (ℕ → Result IoError (List ℕ)) → StorePath → ℕ → Result Error A
  unfolding from_slice
  read_bounded_record reader path limit = do
    bytes ← map_err (filesystem "read" path) (reader (limit + 1))
    ensure (not (ltb limit (length bytes))) (record_too_large path limit (length bytes))
    from_slice path bytes

  unfoldable pub read_record : FileSystem → StorePath → ℕ → Result Error A
  unfolding read_bounded_record
  read_record fs path limit = do
    metadata ← map_err (filesystem "open" path) (fs.symlink_metadata path)
    ensure (is_file metadata.kind) (unexpected_file_type "file" path)
    ensure (not (ltb limit metadata.len)) (record_too_large path limit metadata.len)
    reader ← map_err (filesystem "open" path) (fs.open_file path)
    read_bounded_record reader path limit

  bounded_sound :
      (reader : ℕ → Result IoError (List ℕ)) (path : StorePath) (limit : ℕ) (a : A)
      → read_bounded_record reader path limit ≡ ok a
      → (bytes : List ℕ) × (raw : Raw) × (length bytes ≤ limit)
        × (decode bytes ≡ some raw)
        × (convert raw ≡ ok a)
  unfolding read_bounded_record from_slice
  bounded_sound reader path limit a h =
      let (bytes, _, rest) = >>=-ok (map_err (filesystem "read" path) (reader (limit + 1))) _ h in
      let (_, fits, sliced) =
        >>=-ok
          (ensure (not (ltb limit (length bytes))) (record_too_large path limit (length bytes))) _
          rest in
      let (raw, decoded, converted) = >>=-ok (ok_or (decode bytes) (json path)) _ sliced in
      (
        bytes,
        raw,
        ground (arith, fits),
        ground (arith, decoded),
        map_err-ok (λ _. json path) (convert raw) converted,
      )

  pub read_record_sound :
      (fs : FileSystem) (path : StorePath) (limit : ℕ) (a : A)
      → read_record fs path limit ≡ ok a
      → (metadata : Metadata) × (bytes : List ℕ) × (raw : Raw) × (fs.symlink_metadata path
          ≡ ok metadata)
        × (is_file metadata.kind ≡ true)
        × (length bytes ≤ limit)
        × (decode bytes ≡ some raw)
        × (convert raw ≡ ok a)
  unfolding read_record
  read_record_sound fs path limit a h =
      let (metadata, found, rest) =
        >>=-ok (map_err (filesystem "open" path) (fs.symlink_metadata path)) _ h in
      let (_, regular, rest) =
        >>=-ok (ensure (is_file metadata.kind) (unexpected_file_type "file" path)) _ rest in
      let (_, _, rest) =
        >>=-ok (ensure (not (ltb limit metadata.len)) (record_too_large path limit metadata.len)) _
          rest in
      let (reader, _, rest) =
        >>=-ok (map_err (filesystem "open" path) (fs.open_file path)) _ rest in
      let (bytes, raw, fits, decoded, converted) = bounded_sound reader path limit a rest in
      (
        metadata,
        bytes,
        raw,
        map_err-ok (filesystem "open" path) (fs.symlink_metadata path) found,
        ground (arith, regular),
        fits,
        decoded,
        converted,
      )
