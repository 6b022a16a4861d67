-- ===== src/Evidence/Find.antt =====
-- crates/cargo-optic-evidence/src/find.rs
pub mod Selection
pub mod Results
use Prim.Native.Nat.{Ordering}
use optic.Prelude.{
  ℕ, suc, Bool, ◌||◌, List, [], ◌∷◌, map, Result, ok, err, ◌>>=◌, ◌>>◌, ensure, not, map_err,
  length, take, is_empty, ltb, ◌==◌, if◌then◌else◌,
}
use optic.Prelude.Sorting.{cmp, then_with, sort_by}
use optic.Prelude.Text.{Text, text_beq, includes}
use optic.Records.CaptureId.{CaptureId}
use optic.Records.InstanceManifest.{InstanceManifest}
use optic.Records.InstanceRecord.{InstanceRecord}
use optic.Records.InstanceRef
use optic.Records.InstanceRef.{InstanceRef}
use optic.Evidence.{Error, Store, empty_query, invalid_limit, store}

pub record FoundInstance : Type 0 where
  pub reference : InstanceRef
  pub record_ : InstanceRecord

pub data MatchKind : Type 0 where
  exact substring : MatchKind

pub record FindResults : Type 0 where
  pub capture_id : CaptureId
  pub match_kind : MatchKind
  pub total_matches : ℕ
  pub instances : List FoundInstance

unfoldable pub is_truncated : FindResults → Bool
is_truncated r = ltb (length r.instances) r.total_matches

-- An instance with its position in the manifest.
abbrev pub Numbered : Type 0
Numbered = ℕ × InstanceRecord

-- `iter().enumerate()`, from a position on.
abbrev pub enumerate : ℕ → List InstanceRecord → List Numbered
enumerate k [] = []
enumerate k (i ∷ rest) = (k, i) ∷ enumerate (suc k) rest

-- `filter`, on the instance.
abbrev pub filter : (InstanceRecord → Bool) → List Numbered → List Numbered
filter p [] = []
filter p (x ∷ rest) = let kept = filter p rest in if p x.1 then x ∷ kept else kept

unfoldable pub is_exact_match : InstanceRecord → Text → Bool
is_exact_match i query =
    text_beq i.definition.definition_path query
    || text_beq i.display_name query
    || text_beq i.raw_symbol query

unfoldable pub is_substring_match : InstanceRecord → Text → Bool
is_substring_match i query =
    includes i.definition.definition_path query
    || includes i.display_name query
    || includes i.raw_symbol query

-- The matches before they are sorted, and how they matched.
unfoldable pub select : List InstanceRecord → Text → MatchKind × List Numbered
unfolding is_exact_match is_substring_match
select instances query =
    let matches = filter (λ i. is_exact_match i query) (enumerate 0 instances) in
    let others = filter (λ i. is_substring_match i query) (enumerate 0 instances) in
    if is_empty matches then (substring, others) else (exact, matches)

-- The comparison of the sort.
abbrev pub order : Numbered → Numbered → Ordering
order left right =
    then_with
      (then_with
        (then_with (cmp left.1.display_name right.1.display_name)
          (cmp left.1.definition.definition_path right.1.definition.definition_path))
        (cmp left.1.definition.crate_name right.1.definition.crate_name))
      (cmp left.1.raw_symbol right.1.raw_symbol)

abbrev pub found : CaptureId → Numbered → FoundInstance
found capture_id (ordinal, i) = record {
  reference = InstanceRef.new capture_id ordinal;
  record_ = i;
}

-- The search in a manifest that was read.
unfoldable pub search_manifest : CaptureId → Text → ℕ → InstanceManifest → FindResults
unfolding select sort_by cmp
search_manifest capture_id query limit manifest =
    let (match_kind, unsorted) = select manifest.instances query in
    let matches = sort_by order unsorted in
    record {
      capture_id = capture_id;
      match_kind = match_kind;
      total_matches = length matches;
      instances = map (found capture_id) (take limit matches);
    }

unfoldable pub find_instances :
    {F : Type 0} → Store F → CaptureId → Text → ℕ → Result (Error F) FindResults
unfolding search_manifest
find_instances s capture_id query limit = do
  ensure (not (is_empty query)) (empty_query query)
  ensure (not (limit == 0)) (invalid_limit limit)
  manifest ← map_err store (s.read_instances capture_id)
  ok (search_manifest capture_id query limit manifest)
