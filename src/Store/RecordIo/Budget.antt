-- ===== src/Store/RecordIo/Budget.antt =====
-- The budget of a record is one of the whole file.
use optic.Prelude.{
  ℕ, zero, suc, true, ◌+◌, ◌<◌, ◌≤◌, not, Option, some, List, [], ◌∷◌, ◌≡◌, ◌↔◌, refl, sym, ap,
  subst, ◌∙◌, arith, Result, ok, >>=-ok, ok-inj, ensure, map_err, map_err-ok, ok_or, length,
  length-take, take, ltb,
}
use optic.Records.Error.{Checked}
use optic.Store.{
  IoError, StorePath, FileSystem, Metadata, is_file, filesystem, record_too_large, json,
}
use optic.Store.RecordIo.{from_slice, read_bounded_record, read_record}

-- The reader of a file with this content, whatever is asked of it: no more than there is.
abbrev pub Reads : (ℕ → Result IoError (List ℕ)) → List ℕ → Type 0
Reads reader content = (n : ℕ) → reader n ≡ ok (take n content)

-- What is shorter than was asked for is all there is.
whole : (n : ℕ) (content : List ℕ) → length (take n content) < n → take n content ≡ content
whole zero content h = absurd (omega (arith, h))
whole (suc n) [] h = refl
whole (suc n) (x ∷ content) h = ap (◌∷◌ x) (whole n content (omega (arith, h)))

module _ {Raw A : Type 0} (decode : List ℕ → Option Raw) (convert : Raw → Checked A)
    (path : StorePath) (limit : ℕ) (content : List ℕ) (a : A) where
  -- The whole content is within the budget and decodes to a raw record that the conversion accepts.
  abbrev pub Decodes : Type 0
  Decodes =
      (length content ≤ limit) × (raw : Raw) × (decode content ≡ some raw) × (convert raw ≡ ok a)

  bounded_iff :
      (reader : ℕ → Result IoError (List ℕ))
      → Reads reader content
      → (read_bounded_record decode convert reader path limit ≡ ok a) ↔ Decodes
  unfolding read_bounded_record from_slice
  bounded_iff reader reads = (
    λ h.
        let taken = take (limit + 1) content in
        let (bytes, got, rest) =
          >>=-ok (map_err (filesystem "read" path) (reader (limit + 1))) _ h in
        let (_, fits, sliced) =
          >>=-ok
            (ensure (not (ltb limit (length bytes))) (record_too_large path limit (length bytes))) _
            rest in
        let (raw, decoded, converted) = >>=-ok (ok_or (decode bytes) (json path)) _ sliced in
        let same : taken ≡ bytes =
          ok-inj (reader (limit + 1)) (reads (limit + 1))
            (map_err-ok (filesystem "read" path) (reader (limit + 1)) got) in
        let short : length bytes ≤ limit = ground (arith, fits) in
        let all : content ≡ bytes =
          sym (whole (limit + 1) content (omega (arith, short, ap (length {A = ℕ}) same))) ∙ same in
        (
          subst (λ (l : List ℕ). length l ≤ limit) (sym all) short,
          raw,
          ap decode all ∙ ground (arith, decoded),
          map_err-ok (λ _. json path) (convert raw) converted,
        ),
    λ (short, raw, decoded, converted).
        let all : take (limit + 1) content ≡ content =
          whole (limit + 1) content (omega (arith, short, length-take (limit + 1) content)) in
        let read : reader (limit + 1) ≡ ok content = reads (limit + 1) ∙ ap ok all in
        ground (arith, read, short, decoded, converted),
  )

  -- For a path whose metadata is read and which opens as a file of this content: reading the record
  -- within a budget gives it exactly if the path is a regular file, neither its length nor its
  -- whole content is over the budget, and the whole content decodes to a raw record that the
  -- conversion turns into it. So no oversized file is cut off and accepted.
  pub read_record_iff :
      (fs : FileSystem) (metadata : Metadata) (reader : ℕ → Result IoError (List ℕ))
      → fs.symlink_metadata path ≡ ok metadata
      → fs.open_file path ≡ ok reader
      → Reads reader content
      → (read_record decode convert fs path limit ≡ ok a)
        ↔ ((is_file metadata.kind ≡ true) × (metadata.len ≤ limit) × Decodes)
  unfolding read_record
  read_record_iff fs metadata reader found opened reads =
      ground (arith, found, opened, bounded_iff reader reads)
