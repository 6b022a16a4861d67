-- ===== src/Evidence/Find/Results.antt =====
-- What a search returns.
use mathlib.Core.List.{Perm}
use optic.Prelude.{
  ℕ, ◌<◌, true, List, [], map, ◌≡◌, ◌≢◌, ◌↔◌, ◌⊎◌, inl, inr, Bool-cases, ◌++◌, sym, ap, subst, ◌∙◌,
  arith, ok, >>=-ok, map_err, map_err-ok, All, All-imp, some, length, take, get_elem?,
}
use optic.Prelude.Sorting.{Sorted}
use optic.Prelude.Text.{Text, text_beq_iff, includes, includes_iff}
use optic.Records.CaptureId.{CaptureId}
use optic.Records.InstanceManifest.{InstanceManifest}
use optic.Records.InstanceRecord.{InstanceRecord}
use optic.Evidence.{Store, store, referenced_instance, referenced_instance_iff}
use optic.Evidence.Find.{
  FoundInstance, MatchKind, exact, substring, FindResults, is_truncated, Numbered, enumerate,
  filter, is_exact_match, is_substring_match, order, found, search_manifest, find_instances,
}
use optic.Evidence.Find.Selection.{
  matches, search_resolve, search_ranked, search_exact, is_truncated_iff,
}

-- The instance has this name.
abbrev pub IsNamed : Text → InstanceRecord → Type 0
IsNamed name i =
    (i.definition.definition_path ≡ name) ⊎ (i.display_name ≡ name) ⊎ (i.raw_symbol ≡ name)

abbrev pub IsPart : Text → Text → Type 0
IsPart part text = (before : Text) × (after : Text) × (text ≡ before ++ (part ++ after))

-- The text is a part of a name of the instance.
abbrev pub Mentions : Text → InstanceRecord → Type 0
Mentions part i =
    IsPart part i.definition.definition_path ⊎ IsPart part i.display_name ⊎ IsPart part i.raw_symbol

abbrev pub Fits : MatchKind → Text → InstanceRecord → Type 0
Fits exact = IsNamed
Fits substring = Mentions

is_exact_match_iff :
    (query : Text) (i : InstanceRecord) → (is_exact_match i query ≡ true) ↔ IsNamed query i
unfolding is_exact_match
is_exact_match_iff query i = ground (
  arith,
  text_beq_iff i.definition.definition_path query,
  text_beq_iff i.display_name query,
  text_beq_iff i.raw_symbol query,
)

is_substring_match-Mentions :
    (query : Text) (i : InstanceRecord) → is_substring_match i query ≡ true → Mentions query i
unfolding is_substring_match
is_substring_match-Mentions query i h =
    elim (Bool-cases (includes i.definition.definition_path query)) [
      | inl e ↦ inl ((includes_iff i.definition.definition_path query).0 e)
      | inr not_first ↦ elim (Bool-cases (includes i.display_name query)) [
        | inl e ↦ inr (inl ((includes_iff i.display_name query).0 e))
        | inr neither ↦
            inr (inr ((includes_iff i.raw_symbol query).0 (ground (arith, h, not_first, neither))))
      ]
    ]

matches-Fits :
    (kind : MatchKind) (query : Text) (i : InstanceRecord)
    → matches kind query i ≡ true
    → Fits kind query i
unfolding matches
matches-Fits exact query i h = (is_exact_match_iff query i).0 h
matches-Fits substring query i h = is_substring_match-Mentions query i h

module _ {F : Type 0} (s : Store F) (c : CaptureId) (query : Text) (limit : ℕ) where
  abbrev Ranked : InstanceManifest → FindResults → Type 0
  Ranked m r =
      (ranked : List Numbered) × Perm ranked
        (filter (matches r.match_kind query) (enumerate 0 m.instances))
      × Sorted order ranked
      × (r.instances ≡ map (found c) (take limit ranked))
      × (r.total_matches ≡ length ranked)

  find_parts :
      (r : FindResults)
      → find_instances s c query limit ≡ ok r
      → (m : InstanceManifest) × (s.read_instances c ≡ ok m) × (r ≡ search_manifest c query limit m)
  unfolding find_instances
  find_parts r h =
      let (m, read, same) =
        >>=-ok (map_err store (s.read_instances c)) (λ m. ok (search_manifest c query limit m))
          {final = r} (ground arith) in
      (m, map_err-ok store (s.read_instances c) read, ground (arith, same))

  -- Every instance that a search returns is the one its reference selects in the manifest of the
  -- capture, and passes the test of the kind of match that the result reports.
  pub find_instances-resolve :
      (r : FindResults)
      → find_instances s c query limit ≡ ok r
      → (m : InstanceManifest) × (s.read_instances c ≡ ok m)
        × All
            (λ (f : FoundInstance).
              (f.reference.capture_id ≡ m.capture_id)
              × (referenced_instance {F = F} m f.reference ≡ ok f.record_)
              × (matches r.match_kind query f.record_ ≡ true))
            r.instances
  find_instances-resolve r h =
      let (m, read, same) = find_parts r h in
      let scope = (s.read_valid c m read).1 in
      let all_resolve =
        subst
          (λ (t : FindResults).
            All
              (λ (f : FoundInstance).
                (f.reference.capture_id ≡ m.capture_id)
                × (get_elem? m.instances f.reference.ordinal ≡ some f.record_)
                × (matches t.match_kind query f.record_ ≡ true))
              t.instances)
          (sym same) (search_resolve c query limit m scope) in
      (
        m,
        read,
        All-imp
            (λ f (owner, at, passed).
              (owner, (referenced_instance_iff m f.reference f.record_).1 at, passed))
            r.instances all_resolve,
      )

  of_exact :
      (r : FindResults) (m : InstanceManifest)
      → r ≡ search_manifest c query limit m
      → (r.match_kind ≡ exact)
        ↔ ((j : ℕ) × (i : InstanceRecord) × (get_elem? m.instances j ≡ some i) × IsNamed query i)
  of_exact r m same =
      let (there, back) = search_exact c query limit m in
      let kind : r.match_kind ≡ (search_manifest c query limit m).match_kind =
        ap (λ (t : FindResults). t.match_kind) same in
      (
        λ e.
            let (j, i, at, named) = there (sym kind ∙ e) in
            (j, i, at, (is_exact_match_iff query i).0 named),
        λ (j, i, at, named). kind ∙ back (j, i, at, (is_exact_match_iff query i).1 named),
      )

  -- A search that succeeds reports an exact match exactly if some instance of the capture has the
  -- query as its definition path, display name or raw symbol. Then each instance that it returns is
  -- such a one, and else each has the query as a part of one of the three.
  pub find_instances-exact :
      (r : FindResults)
      → find_instances s c query limit ≡ ok r
      → (m : InstanceManifest) × (s.read_instances c ≡ ok m)
        × ((r.match_kind ≡ exact) ↔ (
            (j : ℕ) × (i : InstanceRecord) × (get_elem? m.instances j ≡ some i) × IsNamed query i))
        × All (λ (f : FoundInstance). Fits r.match_kind query f.record_) r.instances
  find_instances-exact r h =
      let (m, read, same) = find_parts r h in
      let all_pass =
        subst
          (λ (t : FindResults).
            All
              (λ (f : FoundInstance).
                (f.reference.capture_id ≡ m.capture_id)
                × (get_elem? m.instances f.reference.ordinal ≡ some f.record_)
                × (matches t.match_kind query f.record_ ≡ true))
              t.instances)
          (sym same) (search_resolve c query limit m (s.read_valid c m read).1) in
      (
        m,
        read,
        of_exact r m same,
        All-imp (λ f (_, _, passed). matches-Fits r.match_kind query f.record_ passed) r.instances
            all_pass,
      )

  -- A search succeeds exactly if the query is not empty, the limit is not zero and the manifest is
  -- read.
  pub find_instances_iff :
      ((r : FindResults) × (find_instances s c query limit ≡ ok r))
      ↔ ((query ≢ []) × (limit ≢ 0) × (m : InstanceManifest) × (s.read_instances c ≡ ok m))
  unfolding find_instances
  find_instances_iff = (
    λ (r, h). let (m, read, _) = find_parts r h in (ground (arith, h), ground (arith, h), m, read),
    λ (query_ok, limit_ok, m, read). (search_manifest c query limit m, ground arith),
  )

  -- The results of a search that succeeds are the first `limit` of all matching instances, in the
  -- order of display name, definition path, crate name and raw symbol; the count is that of all
  -- matches, and the result says it is truncated exactly if some are left out.
  pub find_instances-ranked :
      (r : FindResults)
      → find_instances s c query limit ≡ ok r
      → (m : InstanceManifest) × (ranked : List Numbered) × (s.read_instances c ≡ ok m)
        × Perm ranked (filter (matches r.match_kind query) (enumerate 0 m.instances))
        × Sorted order ranked
        × (r.instances ≡ map (found c) (take limit ranked))
        × (r.total_matches ≡ length ranked)
        × ((is_truncated r ≡ true) ↔ (limit < length ranked))
  find_instances-ranked r h =
      let (m, read, same) = find_parts r h in
      let (ranked, all_there, sorted, shown, total) =
        subst (Ranked m) (sym same) (search_ranked c query limit m) in
      (
        m,
        ranked,
        read,
        all_there,
        sorted,
        shown,
        total,
        is_truncated_iff c limit r ranked shown total,
      )
