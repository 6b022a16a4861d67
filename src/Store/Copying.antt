-- ===== src/Store/Copying.antt =====
-- crates/cargo-optic-store/src/artifacts.rs: copying a range of bytes in chunks.
use optic.Prelude.{
  ℕ, zero, suc, ◌-◌, ◌*◌, ◌≤◌, min, true, false, List, [], ◌∷◌, ◌++◌, append_assoc, append-nil, ◌≡◌,
  ◌↔◌, refl, sym, ap, ◌∙◌, inl, inr, arith, Result, ok, ok-inj, err, ◌>>=◌, map_err, length, take,
  drop, length-drop, leb, leb→le, ◌==◌, ne_of_==, ==_iff, if◌then◌else◌, Bool-cases,
}
use optic.Prelude.Text.{codes}
use optic.Store.{StorePath, IoError, other, Error, filesystem, write_evidence}

abbrev pub copy_buffer_bytes : ℕ
copy_buffer_bytes = 64 * 1024

-- A reader and a writer of the caller: `read_exact` and `write_all`, with their states.
module _ {R W : Type 0} (read_exact : R → ℕ → Result IoError (List ℕ × R))
    (write_all : W → List ℕ → Result IoError W) (path : StorePath) where
  -- The loop; a chunk has one byte at least, so the remaining length is fuel enough.
  unfoldable pub copy_chunks : ℕ → ℕ → R → W → Result Error W
  copy_chunks zero remaining reader writer = ok writer
  copy_chunks (suc fuel) remaining reader writer = elim (remaining == 0) [
    | true ↦ ok writer
    | false ↦ do
      let count = min remaining copy_buffer_bytes
      (bytes, reader') ← map_err (filesystem "read artifact" path) (read_exact reader count)
      writer' ← map_err (λ e. write_evidence e) (write_all writer bytes)
      copy_chunks fuel (remaining - count) reader' writer'
  ]

  unfoldable pub copy_evidence_bytes : ℕ → R → W → Result Error W
  unfolding copy_chunks
  copy_evidence_bytes len reader writer = copy_chunks len len reader writer

-- A reader over the bytes that are left of a file, and a writer that keeps what it is given.
abbrev pub read_bytes : List ℕ → ℕ → Result IoError (List ℕ × List ℕ)
read_bytes left n =
    if leb n (length left) then ok (take n left, drop n left) else err (other (codes "eof"))

abbrev pub append_bytes : List ℕ → List ℕ → Result IoError (List ℕ)
append_bytes written bytes = ok (written ++ bytes)

take-nil : (n : ℕ) → take {A = ℕ} n [] ≡ []
take-nil zero = refl
take-nil (suc n) = refl

take-split : (k n : ℕ) (xs : List ℕ) → k ≤ n → take k xs ++ take (n - k) (drop k xs) ≡ take n xs
take-split zero n xs h = ap (λ m. take m xs) (omega arith)
take-split (suc k) zero xs h = absurd (omega (arith, h))
take-split (suc k) (suc n) [] h = ap (λ m. take m []) (omega arith) ∙ take-nil (n - k)
take-split (suc k) (suc n) (x ∷ xs) h =
    ap (λ l. x ∷ l)
      (ap (λ m. take k xs ++ take m (drop k xs)) (omega arith)
        ∙ take-split k n xs (omega (arith, h)))

-- Nothing is left to copy.
finished :
    (remaining : ℕ) (left written out : List ℕ) (r : Result Error (List ℕ))
    → r ≡ ok written
    → remaining ≡ 0
    → (r ≡ ok out) ↔ ((remaining ≤ length left) × (out ≡ written ++ take remaining left))
finished remaining left written out r done nothing =
    let same : written ++ take remaining left ≡ written =
      ap (λ n. written ++ take n left) nothing ∙ append-nil written in
    (
      λ e. (omega (arith, nothing), sym (ok-inj r done e) ∙ sym same),
      λ (_, whole). done ∙ ap ok (sym (whole ∙ same)),
    )

module _ (path : StorePath) where
  abbrev go : ℕ → ℕ → List ℕ → List ℕ → Result Error (List ℕ)
  go = copy_chunks read_bytes append_bytes path

  go-chunk :
      (fuel remaining : ℕ) (left written : List ℕ)
      → (remaining == 0) ≡ false
      → leb (min remaining copy_buffer_bytes) (length left) ≡ true
      → go (suc fuel) remaining left written
        ≡ go fuel
            (remaining - min remaining copy_buffer_bytes)
            (drop (min remaining copy_buffer_bytes) left)
            (written ++ take (min remaining copy_buffer_bytes) left)
  unfolding copy_chunks
  go-chunk fuel remaining left written more enough = ground (arith, more, enough)

  go_short :
      (fuel remaining : ℕ) (left written : List ℕ)
      → (remaining == 0) ≡ false
      → leb (min remaining copy_buffer_bytes) (length left) ≡ false
      → go (suc fuel) remaining left written
        ≡ err (filesystem "read artifact" path (other (codes "eof")))
  unfolding copy_chunks
  go_short fuel remaining left written more short = ground (arith, more, short)

  go_iff :
      (fuel remaining : ℕ) (left written out : List ℕ)
      → remaining ≤ fuel
      → (go fuel remaining left written ≡ ok out)
        ↔ ((remaining ≤ length left) × (out ≡ written ++ take remaining left))
  go_iff zero remaining left written out h =
      finished remaining left written out (go 0 remaining left written) (unfold copy_chunks in refl)
        (omega (arith, h))
  go_iff (suc fuel) remaining left written out h = elim (Bool-cases (remaining == 0)) [
    | inl done ↦
        finished remaining left written out (go (suc fuel) remaining left written)
          (unfold copy_chunks in ground (arith, done)) ((==_iff remaining 0).0 done)
    | inr more ↦ elim (Bool-cases (leb (min remaining copy_buffer_bytes) (length left))) [
      | inl enough ↦
          let count = min remaining copy_buffer_bytes in
          let (there, back) =
            go_iff fuel (remaining - count) (drop count left) (written ++ take count left) out
              (omega (arith, h, ne_of_== remaining 0 more)) in
          let step = go-chunk fuel remaining left written more enough in
          let rejoined : (written ++ take count left) ++ take (remaining - count) (drop count left)
              ≡ written ++ take remaining left =
            append_assoc written (take count left) (take (remaining - count) (drop count left))
            ∙ ap (λ l. written ++ l) (take-split count remaining left (omega arith)) in
          (
            λ e.
                let (fits, same) = there (sym step ∙ e) in
                (
                  omega (arith, fits, length-drop count left, leb→le count (length left) enough),
                  same ∙ rejoined,
                ),
            λ (fits, same).
                step ∙ back (omega (arith, fits, length-drop count left), same ∙ sym rejoined),
          )
      | inr short ↦ (
        λ e. absurd (cc (sym (go_short fuel remaining left written more short) ∙ e)),
        λ (fits, _). absurd (ground (arith, fits, short)),
      )
    ]
  ]

  -- Copying a range from the bytes of a file that are left at its start succeeds exactly if there
  -- are as many, and appends those bytes, whatever the number of chunks.
  pub copy_evidence_bytes_iff :
      (len : ℕ) (left written out : List ℕ)
      → (copy_evidence_bytes read_bytes append_bytes path len left written ≡ ok out)
        ↔ ((len ≤ length left) × (out ≡ written ++ take len left))
  unfolding copy_evidence_bytes
  copy_evidence_bytes_iff len left written out = go_iff len len left written out (omega arith)
