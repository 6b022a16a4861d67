-- ===== src/Prelude/Equality.antt =====
-- Equality as an interface, and the loops that insert into a `HashSet` or a `HashMap`.
use Prim.Native.Nat.{ℕ, zero, suc}
use mathlib.Core.Path.{◌≡◌, refl, ap}
use mathlib.Core.Logic.{◌≢◌, ◌↔◌, inl, inr}
use mathlib.Core.Bool.{Bool, true, false, ◌&&◌, ◌||◌}
use mathlib.Core.List.{List, [], ◌∷◌}
use mathlib.Core.Option.{Option, none, some}
use native.Mathlib.Omega.{arith}
use optic.Prelude.Tests.{◌==◌ as nat_beq, ==_iff, if◌then◌else◌, Bool-cases}
use optic.Prelude.Lists.{All, get_elem?}

pub record Eq {ℓ} (A : Type ℓ) : Type ℓ where
  pub beq : A → A → Bool
  pub beq_iff : (a b : A) → (beq a b ≡ true) ↔ (a ≡ b)

instance abbrev pub nat_eq : Eq ℕ
nat_eq = record { beq = nat_beq; beq_iff = ==_iff }

module _ {ℓ} {A : Type ℓ} ⦃e : Eq A⦄ where
  unfoldable pub list_beq : List A → List A → Bool
  list_beq [] [] = true
  list_beq (x ∷ xs) (y ∷ ys) = e.beq x y && list_beq xs ys
  list_beq _ _ = false

  pub list_beq_iff : (xs ys : List A) → (list_beq xs ys ≡ true) ↔ (xs ≡ ys)
  unfolding list_beq
  list_beq_iff (x ∷ xs) (y ∷ ys) = ground (arith, e.beq_iff x y, list_beq_iff xs ys)
  list_beq_iff _ _ = ground arith

pub key_eq_iff {ℓ κ} :
    {A : Type ℓ} {K : Type κ} (key : A → K)
    → ((a b : A) → key a ≡ key b → a ≡ b)
    → (e : Eq K) (a b : A) → (e.beq (key a) (key b) ≡ true) ↔ (a ≡ b)
key_eq_iff key inj e a b =
    (λ h. inj a b ((e.beq_iff (key a) (key b)).0 h), λ p. (e.beq_iff (key a) (key b)).1 (ap key p))

-- An equality test on keys that determine the value.
abbrev pub key_eq {ℓ κ} :
    {A : Type ℓ} {K : Type κ} (key : A → K) → ((a b : A) → key a ≡ key b → a ≡ b) → Eq K → Eq A
key_eq key inj e = record {
  beq = λ a b. e.beq (key a) (key b);
  beq_iff = λ a b. key_eq_iff key inj e a b;
}

module _ {ℓ} {A : Type ℓ} where
  -- No element of the list is `x`.
  abbrev pub Lacks : List A → A → Type ℓ
  Lacks ys x = All (λ y. y ≢ x) ys

  -- No element occurs twice.
  abbrev pub Distinct : List A → Type ℓ
  Distinct [] = Unit
  Distinct (x ∷ xs) = All (λ y. x ≢ y) xs × Distinct xs

  pub Lacks-nil : (xs : List A) → All (Lacks []) xs
  Lacks-nil [] = tt
  Lacks-nil (x ∷ xs) = (tt, Lacks-nil xs)

module _ {ℓ} {A : Type ℓ} ⦃e : Eq A⦄ where
  unfoldable pub contains : List A → A → Bool
  contains [] x = false
  contains (y ∷ ys) x = e.beq y x || contains ys x

  pub contains_iff : (ys : List A) (x : A) → (contains ys x ≡ false) ↔ Lacks ys x
  unfolding contains
  contains_iff [] x = (λ _. tt, λ _. refl)
  contains_iff (y ∷ ys) x = ground (arith, contains_iff ys x, e.beq_iff y x)

  -- `for x in xs { if !seen.insert(x) { return x } }` on a `HashSet`.
  unfoldable pub first_duplicate : List A → List A → Option A
  unfolding contains
  first_duplicate seen [] = none
  first_duplicate seen (x ∷ xs) = if contains seen x then some x else first_duplicate (x ∷ seen) xs

  pub All-Lacks-cons :
      (x : A) (seen xs : List A)
      → All (Lacks (x ∷ seen)) xs ↔ (All (Lacks seen) xs × All (λ y. x ≢ y) xs)
  All-Lacks-cons x seen [] = (λ _. (tt, tt), λ _. tt)
  All-Lacks-cons x seen (y ∷ xs) =
      let (there, back) = All-Lacks-cons x seen xs in
      (
        λ h. ((h.0.1, (there h.1).0), (h.0.0, (there h.1).1)),
        λ h. ((h.1.0, h.0.0), back (h.0.1, h.1.1)),
      )

  pub first_duplicate_iff :
      (seen xs : List A) → (first_duplicate seen xs ≡ none) ↔ (All (Lacks seen) xs × Distinct xs)
  unfolding first_duplicate
  first_duplicate_iff seen [] = (λ _. (tt, tt), λ _. refl)
  first_duplicate_iff seen (x ∷ xs) = elim (Bool-cases (contains seen x)) [
    | inl old ↦ rw old (λ h. absurd (cc h), λ h. absurd (cc ((contains_iff seen x).1 h.0.0)))
    | inr new ↦
        let fresh = (contains_iff seen x).0 new in
        let (there, back) = first_duplicate_iff (x ∷ seen) xs in
        let (apart, join) = All-Lacks-cons x seen xs in
        rw new (
          λ h. let a = apart (there h).0 in ((fresh, a.0), (a.1, (there h).1)),
          λ h. back (join (h.0.1, h.1.0), h.1.1),
        )
  ]

module _ {ℓ} {A : Type ℓ} where
  -- The element stands at some index.
  abbrev pub Member : List A → A → Type ℓ
  Member xs x = (i : ℕ) × (get_elem? xs i ≡ some x)

module _ {ℓ} {A : Type ℓ} ⦃e : Eq A⦄ where
  contains-Member : (xs : List A) (x : A) → contains xs x ≡ true → Member xs x
  unfolding contains
  contains-Member [] x h = absurd (cc h)
  contains-Member (y ∷ ys) x h = elim (Bool-cases (e.beq y x)) [
    | inl here ↦ (0, ap some ((e.beq_iff y x).0 here))
    | inr later ↦ let (i, at) = contains-Member ys x (ground arith) in (suc i, at)
  ]

  Member-contains : (xs : List A) (x : A) (i : ℕ) → get_elem? xs i ≡ some x → contains xs x ≡ true
  unfolding contains
  Member-contains [] x i h = absurd (ground arith)
  Member-contains (y ∷ ys) x zero h = ground (arith, e.beq_iff y x)
  Member-contains (y ∷ ys) x (suc i) h = ground (arith, Member-contains ys x i h)

  pub contains_iff_Member : (xs : List A) (x : A) → (contains xs x ≡ true) ↔ Member xs x
  contains_iff_Member xs x = (contains-Member xs x, λ (i, at). Member-contains xs x i at)
