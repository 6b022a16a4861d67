-- ===== src/Evidence/Find/Selection.antt =====
-- What a search selects in a manifest.
use mathlib.Core.List.{Perm}
use optic.Prelude.{
  ℕ, suc, ◌+◌, ◌<◌, min, zero, Bool, true, false, List, [], ◌∷◌, map, ◌≡◌, ◌↔◌, refl, sym, ap,
  subst, ◌∙◌, inl, inr, arith, All, All-imp, Bool-cases, some, length, take, length-map,
  length-take, get_elem?, is_empty,
}
use optic.Prelude.Sorting.{
  sort_by, sort_by-perm, All-sort_by, sort_by-Sorted, Sorted, IsOrder, cmp-IsOrder, key-IsOrder,
  then-IsOrder,
}
use optic.Prelude.Text.{Text}
use optic.Records.CaptureId.{CaptureId}
use optic.Records.InstanceManifest.{InstanceManifest}
use optic.Records.InstanceRecord.{InstanceRecord}
use optic.Evidence.Find.{
  FoundInstance, MatchKind, exact, substring, FindResults, is_truncated, Numbered, enumerate,
  filter, is_exact_match, is_substring_match, select, order, found, search_manifest,
}

-- The test that a kind of match stands for.
unfoldable pub matches : MatchKind → Text → InstanceRecord → Bool
matches exact query i = is_exact_match i query
matches substring query i = is_substring_match i query

-- The position is that of the instance.
abbrev Numbers : List InstanceRecord → Numbered → Type 0
Numbers instances x = get_elem? instances x.0 ≡ some x.1

enumerate_lem :
    (k : ℕ) (instances : List InstanceRecord)
    → All
        (λ (x : Numbered). (j : ℕ) × (x.0 ≡ k + j) × (get_elem? instances j ≡ some x.1))
        (enumerate k instances)
enumerate_lem k [] = tt
enumerate_lem k (i ∷ rest) = (
  (0, omega arith, refl),
  All-imp (λ x (j, e, at). (suc j, omega (arith, e), at)) (enumerate (suc k) rest)
      (enumerate_lem (suc k) rest),
)

enumerate-Numbers :
    (instances : List InstanceRecord) → All (Numbers instances) (enumerate 0 instances)
enumerate-Numbers instances =
    All-imp (λ x (j, e, at). ap (get_elem? instances) (omega (arith, e)) ∙ at)
      (enumerate 0 instances) (enumerate_lem 0 instances)

-- The positions of a filtered list are kept, and its elements pass the test.
All-filter {κ} :
    (P : Numbered → Type κ) (p : InstanceRecord → Bool) (xs : List Numbered)
    → All P xs
    → All (λ x. P x × (p x.1 ≡ true)) (filter p xs)
All-filter P p [] h = tt
All-filter P p (x ∷ xs) (h, t) = elim (Bool-cases (p x.1)) [
  | inl passed ↦ rw passed ((h, passed), All-filter P p xs t)
  | inr other ↦ rw other (All-filter P p xs t)
]

order-IsOrder : IsOrder order
order-IsOrder =
    then-IsOrder
      (then-IsOrder
        (then-IsOrder (key-IsOrder (λ (x : Numbered). x.1.display_name) cmp-IsOrder)
          (key-IsOrder (λ (x : Numbered). x.1.definition.definition_path) cmp-IsOrder))
        (key-IsOrder (λ (x : Numbered). x.1.definition.crate_name) cmp-IsOrder))
      (key-IsOrder (λ (x : Numbered). x.1.raw_symbol) cmp-IsOrder)

select_lem :
    (instances : List InstanceRecord) (query : Text)
    → All
        (λ x. Numbers instances x × (matches (select instances query).0 query x.1 ≡ true))
        (select instances query).1
unfolding select matches
select_lem instances query =
    elim (Bool-cases (is_empty (filter (λ i. is_exact_match i query) (enumerate 0 instances)))) [
      | inl empty ↦ rw empty (
          All-filter (Numbers instances) (λ i. is_substring_match i query) (enumerate 0 instances)
            (enumerate-Numbers instances))
      | inr some_exact ↦ rw some_exact (
          All-filter (Numbers instances) (λ i. is_exact_match i query) (enumerate 0 instances)
            (enumerate-Numbers instances))
    ]

All-take {ℓ κ} : {A : Type ℓ} (P : A → Type κ) (n : ℕ) (xs : List A) → All P xs → All P (take n xs)
All-take P zero xs h = tt
All-take P (suc n) [] h = tt
All-take P (suc n) (x ∷ xs) (p, h) = (p, All-take P n xs h)

All-map {ℓ κ μ} :
    {A : Type ℓ} {B : Type κ} (P : B → Type μ) (f : A → B) (xs : List A)
    → All (λ x. P (f x)) xs
    → All P (map f xs)
All-map P f [] h = tt
All-map P f (x ∷ xs) (p, h) = (p, All-map P f xs h)

behind :
    (p : InstanceRecord → Bool) (x : InstanceRecord) (xs : List InstanceRecord) (j : ℕ)
    (i : InstanceRecord)
    → p x ≡ false
    → get_elem? (x ∷ xs) j ≡ some i
    → p i ≡ true
    → (j' : ℕ) × (i' : InstanceRecord) × (get_elem? xs j' ≡ some i') × (p i' ≡ true)
behind p x xs zero i other at passed =
    let same : x ≡ i = ground arith in absurd (cc (sym other ∙ ap p same ∙ passed))
behind p x xs (suc j) i other at passed = (j, i, at, passed)

-- Something passes the filter exactly if an instance passes its test.
filter-enumerate :
    (p : InstanceRecord → Bool) (k : ℕ) (instances : List InstanceRecord)
    → (is_empty (filter p (enumerate k instances)) ≡ false)
      ↔ ((j : ℕ) × (i : InstanceRecord) × (get_elem? instances j ≡ some i) × (p i ≡ true))
filter-enumerate p k [] = (λ h. absurd (cc h), λ (j, i, at, _). absurd (ground (arith, at)))
filter-enumerate p k (x ∷ xs) = elim (Bool-cases (p x)) [
  | inl passed ↦ rw passed (λ _. (0, x, refl, passed), λ _. refl)
  | inr other ↦
      let (there, back) = filter-enumerate p (suc k) xs in
      rw other (
        λ h. let (j, i, at, ok_i) = there h in (suc j, i, at, ok_i),
        λ (j, i, at, ok_i). back (behind p x xs j i other at ok_i),
      )
]

select-filter :
    (instances : List InstanceRecord) (query : Text)
    → (select instances query).1
      ≡ filter (matches (select instances query).0 query) (enumerate 0 instances)
unfolding select matches
select-filter instances query =
    elim (Bool-cases (is_empty (filter (λ i. is_exact_match i query) (enumerate 0 instances)))) [
      | inl none_exact ↦ rw none_exact refl
      | inr some_exact ↦ rw some_exact refl
    ]

select-exact :
    (instances : List InstanceRecord) (query : Text)
    → ((select instances query).0 ≡ exact)
      ↔ (is_empty (filter (λ i. is_exact_match i query) (enumerate 0 instances)) ≡ false)
unfolding select
select-exact instances query = ground arith

module _ (c : CaptureId) (query : Text) (limit : ℕ) (m : InstanceManifest) where
  pub search_resolve :
      m.capture_id ≡ c
      → All
          (λ (f : FoundInstance).
            (f.reference.capture_id ≡ m.capture_id)
            × (get_elem? m.instances f.reference.ordinal ≡ some f.record_)
            × (matches (search_manifest c query limit m).match_kind query f.record_ ≡ true))
          (search_manifest c query limit m).instances
  unfolding search_manifest
  search_resolve scope =
      let kept = All-take _ limit _ (
        All-sort_by order
          (λ x. Numbers m.instances x × (matches (select m.instances query).0 query x.1 ≡ true))
          (select m.instances query).1 (select_lem m.instances query)) in
      All-map _ (found c) (take limit (sort_by order (select m.instances query).1)) (
        All-imp (λ x (at, passed). (sym scope, at, passed))
          (take limit (sort_by order (select m.instances query).1)) kept)

  pub search_ranked :
      (ranked : List Numbered) × Perm ranked (
        filter
          (matches (search_manifest c query limit m).match_kind query)
          (enumerate 0 m.instances))
      × Sorted order ranked
      × ((search_manifest c query limit m).instances ≡ map (found c) (take limit ranked))
      × ((search_manifest c query limit m).total_matches ≡ length ranked)
  unfolding search_manifest
  search_ranked =
      let unsorted = (select m.instances query).1 in
      (
        sort_by order unsorted,
        subst (Perm (sort_by order unsorted)) (select-filter m.instances query)
            (sort_by-perm order unsorted),
        sort_by-Sorted order order-IsOrder unsorted,
        refl,
        refl,
      )

  pub search_exact : ((search_manifest c query limit m).match_kind ≡ exact) ↔ (
      (j : ℕ) × (i : InstanceRecord) × (get_elem? m.instances j ≡ some i)
      × (is_exact_match i query ≡ true))
  unfolding search_manifest
  search_exact =
      let (some_exact, nonempty) = select-exact m.instances query in
      let (there, back) = filter-enumerate (λ i. is_exact_match i query) 0 m.instances in
      (λ h. there (some_exact h), λ w. nonempty (back w))

pub is_truncated_iff :
    (c : CaptureId) (limit : ℕ) (r : FindResults) (ranked : List Numbered)
    → r.instances ≡ map (found c) (take limit ranked)
    → r.total_matches ≡ length ranked
    → (is_truncated r ≡ true) ↔ (limit < length ranked)
unfolding is_truncated
is_truncated_iff c limit r ranked shown total =
    let count : length r.instances ≡ min limit (length ranked) =
      ap length shown ∙ length-map (found c) (take limit ranked) ∙ length-take limit ranked in
    ground (arith, count, total)
