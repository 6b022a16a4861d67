-- ===== src/Tests/Evidence.antt =====
-- Queries on a small capture.
use mathlib.Core.List.{Perm}
use optic.Prelude.{
  ℕ, true, List, [], ◌∷◌, map, take, length, get_elem?, ◌≡◌, ◌≢◌, ◌↔◌, ◌<◌, refl, ok, err, some,
  All, contains,
}
use optic.Prelude.Sorting.{Sorted, sort_by, insert_sorted, cmp}
use optic.Prelude.Text.{Text, codes, text_beq, includes, starts_with}
use optic.Records.Artifact.{ArtifactKind}
use optic.Records.Collection.Valid.{InBounds}
use optic.Records.InstanceManifest.{InstanceManifest}
use optic.Records.InstanceRecord.{InstanceRecord}
use optic.Records.LlvmModuleRecord.{collected}
use optic.Evidence.{Error, alias_cycle, EvidenceRange, referenced_instance}
use optic.Evidence.Find.{
  FoundInstance, FindResults, exact, substring, is_truncated, Numbered, enumerate, filter,
  is_exact_match, is_substring_match, select, found, search_manifest, find_instances,
}
use optic.Evidence.Find
use optic.Evidence.Find.Selection.{matches}
use optic.Evidence.Find.Results.{
  IsNamed, Fits, find_instances-ranked, find_instances-resolve, find_instances-exact,
}
use optic.Evidence.Source.{source_evidence, available, source_evidence-InBounds}
use optic.Evidence.Llvm
use optic.Evidence.Llvm.{
  LlvmBody, LlvmEvidence, no_exact_definition, body, body_of, get, follow, resolve_module,
  resolve_modules, select_bodies, llvm_evidence,
}
use optic.Evidence.Llvm.Resolution.{Answers, Cyclic, resolve_module_iff, resolve_module-error}
use optic.Evidence.Llvm.Answers.{Ends, Undefined, select_bodies-succeeds, select_bodies-Undefined}
use optic.Evidence.Llvm.Bounds.{Held, llvm_evidence-InBounds}
use optic.Tests.Data.{
  capture, run, unit, looped, one_capture, run_reference, walk_reference, run_definition,
}

-- Both instances have `app` in their paths; one is shown.
abbrev partial : FindResults
partial = record {
  capture_id = capture;
  match_kind = substring;
  total_matches = 2;
  instances = found capture (1, run) ∷ [];
}

find_app : find_instances one_capture capture (codes "app") 1 ≡ ok partial
unfolding find_instances search_manifest select is_exact_match is_substring_match includes
    starts_with sort_by insert_sorted cmp text_beq
find_app = refl

find_instances-ranked_example :
    (m : InstanceManifest) × (ranked : List Numbered) × (one_capture.read_instances capture ≡ ok m)
    × Perm ranked (filter (matches substring (codes "app")) (enumerate 0 m.instances))
    × Sorted Find.order ranked
    × (partial.instances ≡ map (found capture) (take 1 ranked))
    × (2 ≡ length ranked)
    × ((is_truncated partial ≡ true) ↔ (1 < length ranked))
find_instances-ranked_example =
    find_instances-ranked one_capture capture (codes "app") 1 partial find_app

find_instances-resolve_example :
    (m : InstanceManifest) × (one_capture.read_instances capture ≡ ok m)
    × All
        (λ (f : FoundInstance).
          (f.reference.capture_id ≡ m.capture_id)
          × (referenced_instance {F = Unit {0}} m f.reference ≡ ok f.record_)
          × (matches substring (codes "app") f.record_ ≡ true))
        partial.instances
find_instances-resolve_example =
    find_instances-resolve one_capture capture (codes "app") 1 partial find_app

find_instances-exact_example :
    (m : InstanceManifest) × (one_capture.read_instances capture ≡ ok m)
    × ((substring ≡ exact) ↔ (
        (j : ℕ) × (i : InstanceRecord) × (get_elem? m.instances j ≡ some i)
        × IsNamed (codes "app") i))
    × All (λ (f : FoundInstance). Fits substring (codes "app") f.record_) partial.instances
find_instances-exact_example =
    find_instances-exact one_capture capture (codes "app") 1 partial find_app

abbrev run_source : EvidenceRange
run_source = record {
  capture_id = capture;
  artifact = record { value = 0 };
  range = record { start = 2; length = 4 };
}

run_available :
    source_evidence one_capture run_reference ≡ ok (available run_source (codes "/src/lib.rs") 1)
unfolding source_evidence referenced_instance text_beq
run_available = refl

source_evidence-InBounds_example :
    (m : InstanceManifest) × (one_capture.read_instances capture ≡ ok m)
    × (capture ≡ m.capture_id)
    × InBounds m.artifacts run_source.artifact ArtifactKind.source run_source.range
source_evidence-InBounds_example =
    source_evidence-InBounds one_capture run_reference run_source (codes "/src/lib.rs") 1
      run_available

-- The alias `_walk` selects the body of `_run`.
abbrev walk_body : LlvmBody
walk_body = body_of unit walk_reference (codes "_walk" ∷ []) run_definition

walk_bodies :
    llvm_evidence one_capture walk_reference ≡ ok (LlvmEvidence.available (walk_body ∷ []))
unfolding llvm_evidence select_bodies resolve_modules resolve_module follow get contains
    referenced_instance sort_by insert_sorted text_beq
walk_bodies = refl

llvm_evidence-InBounds_example :
    (m : InstanceManifest) × (one_capture.read_instances capture ≡ ok m)
    × (walk_body ∷ [] ≢ [])
    × Sorted Llvm.order (walk_body ∷ [])
    × All (Held m.artifacts walk_reference) (walk_body ∷ [])
llvm_evidence-InBounds_example =
    llvm_evidence-InBounds (Unit {0}) one_capture walk_reference (walk_body ∷ []) walk_bodies

resolve_module_iff_example :
    (resolve_module {F = Unit {0}} unit walk_reference (codes "_walk") ≡ ok (body walk_body))
    ↔ Answers unit walk_reference (codes "_walk") [] (body walk_body)
resolve_module_iff_example = resolve_module_iff unit walk_reference (codes "_walk") (body walk_body)

abbrev cycle : Error (Unit {0})
cycle = alias_cycle walk_reference (codes "cgu1") (codes "_walk")

looped_fails : resolve_module looped walk_reference (codes "_walk") ≡ err cycle
unfolding resolve_module follow get contains text_beq
looped_fails = refl

resolve_module-error_example :
    (t : Text) × Cyclic looped (codes "_walk") t
    × (cycle ≡ alias_cycle walk_reference looped.compiler_module t)
resolve_module-error_example =
    resolve_module-error looped walk_reference (codes "_walk") cycle looped_fails

select_bodies-succeeds_example :
    ((e : LlvmEvidence) × (select_bodies {F = Unit {0}}
          (collected (unit ∷ looped ∷ []))
          (codes "_walk")
          walk_reference
        ≡ ok e))
    ↔ All (Ends (codes "_walk")) (unit ∷ looped ∷ [])
select_bodies-succeeds_example =
    select_bodies-succeeds (Unit {0}) (codes "_walk") walk_reference (unit ∷ looped ∷ [])

select_bodies-Undefined_example :
    (select_bodies {F = Unit {0}} (collected (unit ∷ [])) (codes "_sit") walk_reference
      ≡ ok no_exact_definition)
    ↔ All (Undefined (codes "_sit")) (unit ∷ [])
select_bodies-Undefined_example =
    select_bodies-Undefined (Unit {0}) (codes "_sit") walk_reference (unit ∷ [])
