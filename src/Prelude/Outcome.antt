-- ===== src/Prelude/Outcome.antt =====
-- Rust's `Result` with `?` as a bind, and the iterator loops that stop at the first error.
use mathlib.Core.Path.{◌≡◌, refl}
use mathlib.Core.Logic.{◌↔◌}
use native.Mathlib.Omega.{arith}
use optic.Prelude.Lists.{All}
use mathlib.Core.Bool.{Bool, true, false}
use mathlib.Core.List.{List, [], ◌∷◌}
use mathlib.Core.Option.{Option, none, some}

pub data Result {ℓ κ} (E : Type ℓ) (A : Type κ) : Type (ℓ ⊔ κ) where
  ok : A → Result E A
  err : E → Result E A

module _ {ℓ} {E : Type ℓ} where
  infixl 5 ◌>>=◌ ◌>>◌
  abbrev pub ◌>>=◌ {κ μ} : {A : Type κ} {B : Type μ} → Result E A → (A → Result E B) → Result E B
  ok value >>= next = next value
  err error >>= next = err error

  abbrev pub ◌>>◌ {κ} : {B : Type κ} → Result E (Unit {0}) → Result E B → Result E B
  m >> k = m >>= λ _. k

  -- `if !test { return Err(e) }`
  abbrev pub ensure : Bool → E → Result E (Unit {0})
  ensure true e = ok tt
  ensure false e = err e

  -- `option.ok_or_else(|| e)?`
  abbrev pub ok_or {κ} : {A : Type κ} → Option A → E → Result E A
  ok_or none e = err e
  ok_or (some a) e = ok a

  -- `for x in xs { f(x)?; }`
  abbrev pub for_each {κ} : {A : Type κ} → (A → Result E (Unit {0})) → List A → Result E (Unit {0})
  for_each f [] = ok tt
  for_each f (x ∷ xs) = f x >>= λ _. for_each f xs

  -- The result of a check is `Ok(())`.
  abbrev pub Passes : Result E (Unit {0}) → Type ℓ
  Passes r = r ≡ ok tt

  pub >>=-ok {κ μ} :
      {A : Type κ} {B : Type μ} (step : Result E A) (next : A → Result E B) {final : B}
      → (step >>= next) ≡ ok final
      → (value : A) × (step ≡ ok value) × (next value ≡ ok final)
  >>=-ok (ok value) next done = (value, refl, done)
  >>=-ok (err error) next done = cc

  -- `map_err`
  abbrev pub map_err {κ μ} : {F : Type κ} {A : Type μ} → (F → E) → Result F A → Result E A
  map_err f (ok a) = ok a
  map_err f (err e) = err (f e)

module _ {ℓ κ} {E : Type ℓ} {A : Type κ} (f : A → Result E (Unit {0})) where
  -- A loop of checks passes exactly if each check does.
  pub for_each_iff : (xs : List A) → Passes (for_each f xs) ↔ All (λ x. Passes (f x)) xs
  for_each_iff [] = (λ _. tt, λ _. refl)
  for_each_iff (x ∷ xs) = ground (arith, for_each_iff xs)

pub map_err-ok {ℓ κ μ} :
    {E : Type ℓ} {F : Type κ} {A : Type μ} (f : F → E) (r : Result F A) {a : A}
    → map_err f r ≡ ok a
    → r ≡ ok a
map_err-ok f (ok b) h = ground arith
map_err-ok f (err e) h = absurd (cc h)

pub ok-inj {ℓ κ} :
    {E : Type ℓ} {A : Type κ} {a b : A} (r : Result E A) → r ≡ ok a → r ≡ ok b → a ≡ b
ok-inj r h k = ground (arith, h, k)
