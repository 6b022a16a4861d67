-- ===== src/Prelude/Sorting.antt =====
-- The stable `sort_by` of the standard library, by insertion, over a comparison that is a total
-- preorder; and the order of texts.
use mathlib.Core.List.{Perm}
use mathlib.Core.List.Perm
use Prim.Native.Nat.{compare, Ordering}
use mathlib.Core.Path.{◌≡◌, refl}
use mathlib.Core.Logic.{◌≢◌, ◌⊎◌, inl, inr}
use mathlib.Core.List.{List, [], ◌∷◌}
use native.Mathlib.Omega.{arith}
use optic.Prelude.Lists.{All, All-imp}
use optic.Prelude.Text.{Text}

-- `Ordering::then_with`
abbrev pub then_with : Ordering → Ordering → Ordering
then_with Ordering.eq o = o
then_with Ordering.lt o = Ordering.lt
then_with Ordering.gt o = Ordering.gt

-- `str::cmp`
unfoldable pub cmp : Text → Text → Ordering
cmp [] [] = Ordering.eq
cmp [] (y ∷ ys) = Ordering.lt
cmp (x ∷ xs) [] = Ordering.gt
cmp (x ∷ xs) (y ∷ ys) = then_with (compare x y) (cmp xs ys)

-- `Ordering::reverse`
abbrev pub swapped : Ordering → Ordering
swapped Ordering.lt = Ordering.gt
swapped Ordering.eq = Ordering.eq
swapped Ordering.gt = Ordering.lt

InOrder-cases : (o : Ordering) → (o ≡ Ordering.gt) ⊎ (o ≢ Ordering.gt)
InOrder-cases Ordering.lt = inr (cc)
InOrder-cases Ordering.eq = inr (cc)
InOrder-cases Ordering.gt = inl refl

-- A comparison that a sort may be given: reversing it swaps the answer, and it is transitive.
pub record IsOrder {ℓ} {A : Type ℓ} (ord : A → A → Ordering) : Type ℓ where
  pub flip : (a b : A) → ord b a ≡ swapped (ord a b)
  pub trans : (a b c : A) → ord a b ≢ Ordering.gt → ord b c ≢ Ordering.gt → ord a c ≢ Ordering.gt

module _ {ℓ} {A : Type ℓ} (ord : A → A → Ordering) where
  -- `a` may stand before `b`.
  abbrev pub InOrder : A → A → Type 0
  InOrder a b = ord a b ≢ Ordering.gt

  -- Every element is in order with each one behind it.
  abbrev pub Sorted : List A → Type ℓ
  Sorted [] = Unit
  Sorted (x ∷ xs) = All (InOrder x) xs × Sorted xs

  -- `x` stood before the elements of the list, so it stays before its equals.
  unfoldable pub insert_sorted : A → List A → List A
  insert_sorted x [] = x ∷ []
  insert_sorted x (y ∷ ys) = elim (ord x y) [
    | Ordering.gt ↦ y ∷ insert_sorted x ys
    | _ ↦ x ∷ y ∷ ys
  ]

  unfoldable pub sort_by : List A → List A
  unfolding insert_sorted
  sort_by [] = []
  sort_by (x ∷ xs) = insert_sorted x (sort_by xs)

  insert_sorted_gt :
      (x y : A) (ys : List A)
      → ord x y ≡ Ordering.gt
      → insert_sorted x (y ∷ ys) ≡ y ∷ insert_sorted x ys
  unfolding insert_sorted
  insert_sorted_gt x y ys h = ground arith

  insert_sorted-InOrder :
      (x y : A) (ys : List A) → InOrder x y → insert_sorted x (y ∷ ys) ≡ x ∷ y ∷ ys
  unfolding insert_sorted
  insert_sorted-InOrder x y ys h = ground arith

  insert_sorted-perm : (x : A) (ys : List A) → Perm (insert_sorted x ys) (x ∷ ys)
  insert_sorted-perm x [] = unfold insert_sorted in Perm.refl (x ∷ [])
  insert_sorted-perm x (y ∷ ys) = elim (InOrder-cases (ord x y)) [
    | inl after ↦
        rw (insert_sorted_gt x y ys after)
          (Perm.trans (Perm.cons y (insert_sorted-perm x ys)) (Perm.swap x y ys))
    | inr before ↦ rw (insert_sorted-InOrder x y ys before) (Perm.refl (x ∷ y ∷ ys))
  ]

  pub sort_by-perm : (xs : List A) → Perm (sort_by xs) xs
  unfolding sort_by
  sort_by-perm [] = Perm.refl []
  sort_by-perm (x ∷ xs) =
      Perm.trans (insert_sorted-perm x (sort_by xs)) (Perm.cons x (sort_by-perm xs))

  All-insert_sorted {κ} :
      (P : A → Type κ) (x : A) (ys : List A) → P x → All P ys → All P (insert_sorted x ys)
  All-insert_sorted P x [] p h = unfold insert_sorted in (p, tt)
  All-insert_sorted P x (y ∷ ys) p h = elim (InOrder-cases (ord x y)) [
    | inl after ↦ rw (insert_sorted_gt x y ys after) (h.0, All-insert_sorted P x ys p h.1)
    | inr before ↦ rw (insert_sorted-InOrder x y ys before) (p, h)
  ]

  -- What holds of every element still does.
  pub All-sort_by {κ} : (P : A → Type κ) (xs : List A) → All P xs → All P (sort_by xs)
  unfolding sort_by
  All-sort_by P [] h = tt
  All-sort_by P (x ∷ xs) (p, h) = All-insert_sorted P x (sort_by xs) p (All-sort_by P xs h)

  module _ (o : IsOrder ord) where
    pub InOrder-of_gt : (a b : A) → ord a b ≡ Ordering.gt → InOrder b a
    InOrder-of_gt a b h = ground (arith, o.flip a b)

    insert_sorted-Sorted : (x : A) (ys : List A) → Sorted ys → Sorted (insert_sorted x ys)
    insert_sorted-Sorted x [] h = unfold insert_sorted in (tt, tt)
    insert_sorted-Sorted x (y ∷ ys) (h, t) = elim (InOrder-cases (ord x y)) [
      | inl after ↦ rw (insert_sorted_gt x y ys after) (
        All-insert_sorted (InOrder y) x ys (InOrder-of_gt x y after) h,
        insert_sorted-Sorted x ys t,
      )
      | inr before ↦
          rw (insert_sorted-InOrder x y ys before)
            ((before, All-imp (λ z. o.trans x y z before) ys h), (h, t))
    ]

    pub sort_by-Sorted : (xs : List A) → Sorted (sort_by xs)
    unfolding sort_by
    sort_by-Sorted [] = tt
    sort_by-Sorted (x ∷ xs) = insert_sorted-Sorted x (sort_by xs) (sort_by-Sorted xs)

-- Orders: of numbers, of texts, by a key, the converse, and one order after another.
cmp_flip : (a b : Text) → cmp b a ≡ swapped (cmp a b)
unfolding cmp
cmp_flip (x ∷ a) (y ∷ b) = ground (arith, cmp_flip a b)
cmp_flip [] [] = refl
cmp_flip [] (y ∷ b) = refl
cmp_flip (x ∷ a) [] = refl

cmp_trans : (a b c : Text) → cmp a b ≢ Ordering.gt → cmp b c ≢ Ordering.gt → cmp a c ≢ Ordering.gt
unfolding cmp
cmp_trans (x ∷ a) (y ∷ b) (z ∷ c) h k = ground (arith, cmp_trans a b c, cmp_flip a b)
cmp_trans _ _ _ h k = ground arith

pub cmp-IsOrder : IsOrder cmp
cmp-IsOrder = record { flip = cmp_flip; trans = cmp_trans }

pub compare-IsOrder : IsOrder compare
compare-IsOrder = record { flip = λ a b. ground arith; trans = λ a b c h k. ground arith }

pub key-IsOrder {ℓ κ} :
    {A : Type ℓ} {K : Type κ} (key : A → K) {ord : K → K → Ordering}
    → IsOrder ord
    → IsOrder (λ a b. ord (key a) (key b))
key-IsOrder key o = record {
  flip = λ a b. o.flip (key a) (key b);
  trans = λ a b c. o.trans (key a) (key b) (key c);
}

pub swapped-IsOrder {ℓ} :
    {A : Type ℓ} {ord : A → A → Ordering} → IsOrder ord → IsOrder (λ a b. ord b a)
swapped-IsOrder o = record { flip = λ a b. o.flip b a; trans = λ a b c h k. o.trans c b a k h }

module _ {ℓ} {A : Type ℓ} {f g : A → A → Ordering} (o : IsOrder f) (p : IsOrder g) where
  then_trans :
      (a b c : A)
      → then_with (f a b) (g a b) ≢ Ordering.gt
      → then_with (f b c) (g b c) ≢ Ordering.gt
      → then_with (f a c) (g a c) ≢ Ordering.gt
  then_trans a b c h k = ground (
    arith,
    o.flip a b,
    o.flip b c,
    o.flip a c,
    o.trans a b c,
    o.trans b c a,
    o.trans c a b,
    p.trans a b c,
  )

  pub then-IsOrder : IsOrder (λ a b. then_with (f a b) (g a b))
  then-IsOrder = record { flip = λ a b. ground (arith, o.flip a b, p.flip a b); trans = then_trans }
