-- ===== src/Store/Publish/Sizes.antt =====
-- The budget of what is written.
use optic.Prelude.{
  ℕ, ◌+◌, ◌-◌, ◌≤◌, Bool, true, false, not, List, [], ◌∷◌, ◌≡◌, refl, ap, arith, Result, ok, err,
  ensure, length, ltb, ◌==◌, if◌then◌else◌,
}
use optic.Store.{StorePath, Error, filesystem, json, record_too_large}
use optic.Store.Effects.{create_file, write, Os, Run, Act, fail, lift, continue, ◌>>◌, attempt}
use optic.Store.Publish.{write_pieces, write_record}

abbrev pub total : List (List ℕ) → ℕ
total [] = 0
total (piece ∷ rest) = length piece + total rest

-- A step that a success went through.
traced :
    {W A B : Type 0} (x : Result Error A × Run W) (f : A → Act W B) (b : B) (run' : Run W)
    → continue x f ≡ (ok b, run')
    → (a : A) × (run : Run W) × (x ≡ (ok a, run)) × (f a run ≡ (ok b, run'))
traced (ok a, run) f b run' h = (a, run, refl, h)
traced (err e, run) f b run' h = absurd (cc (ap (λ p. p.0) h))

value :
    {W A : Type 0} (a b : A) (run run' : Run W)
    → Path (Result Error A × Run W) (ok a, run) (ok b, run')
    → a ≡ b
value a b run run' h = cc (ap (λ p. p.0) h)

passed :
    {W A : Type 0} (b : Bool) (e : Error) (m : Act W A) (a : A) (run run' : Run W)
    → (if b then fail e else m) run ≡ (ok a, run')
    → (b ≡ false) × (m run ≡ (ok a, run'))
passed true e m a run run' h = absurd (cc (ap (λ p. p.0) h))
passed false e m a run run' h = (refl, h)

ensured :
    {W A : Type 0} (b : Bool) (e : Error) (m : Act W A) (a : A) (run run' : Run W)
    → (lift (ensure b e) >> m) run ≡ (ok a, run')
    → b ≡ true
ensured true e m a run run' h = refl
ensured false e m a run run' h = absurd (cc (ap (λ p. p.0) h))

module _ {W : Type 0} (os : Os W) (path : StorePath) (limit : ℕ) where
  pieces_total :
      (pieces : List (List ℕ)) (remaining : ℕ) (run run' : Run W) (left : ℕ)
      → write_pieces os path limit remaining pieces run ≡ (ok left, run')
      → remaining ≡ left + total pieces
  unfolding write_pieces
  pieces_total [] remaining run run' left h = omega (arith, value remaining left run run' h)
  pieces_total (piece ∷ rest) remaining run run' left h =
      let (fits, h') =
        passed (ltb remaining (length piece)) (record_too_large path limit (limit + 1)) _ left run
          run' h in
      let (_, next, _, h'') =
        traced (attempt os (λ _. json path) (write path piece) run) _ left run' h' in
      ground (arith, fits, pieces_total rest (remaining - length piece) next run' left h'')

  -- Where a record is written, its encoding and the final newline fit the budget, so that a reader
  -- with the same budget does not reject its length.
  pub write_record_fits :
      (pieces : List (List ℕ)) (run run' : Run W)
      → write_record os path pieces limit run ≡ (ok tt, run')
      → total pieces + 1 ≤ limit
  unfolding write_record
  write_record_fits pieces run run' h =
      let (_, run1, _, h1) =
        traced (attempt os (filesystem "create" path) (create_file path) run) _ tt run' h in
      let (left, run2, written, h2) =
        traced (write_pieces os path limit limit pieces run1) _ tt run' h1 in
      let room =
        ensured (not (left == 0)) (record_too_large path limit (limit + 1)) _ tt run2 run' h2 in
      ground (arith, room, pieces_total pieces limit run1 run2 left written)
