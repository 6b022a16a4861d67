-- ===== src/Tests/Data.antt =====
-- A small capture: two instances of one crate, a source file and one LLVM module.
use optic.Prelude.{
  false, some, List, [], ◌∷◌, ◌≡◌, refl, Result, ok, err, ok-inj, if◌then◌else◌, Bool-cases, inl,
  inr, ap, sym, subst, ◌∙◌, contains, first_duplicate, list_beq,
}
use optic.Prelude.Text.{codes, text_beq}
use optic.Records.Artifact.{ArtifactKind, ArtifactRecord}
use optic.Records.ByteRange
use optic.Records.CaptureId.{CaptureId, capture_id_eq}
use optic.Records.Collection.{validate_llvm, check_module, check_modules, validate_artifact_range}
use optic.Records.InstanceManifest.{InstanceManifest, new, check_artifacts, check_instances}
use optic.Records.InstanceManifest.Valid.{IsManifest, new_iff}
use optic.Records.InstanceRecord.{InstanceRecord}
use optic.Records.InstanceRef.{InstanceRef}
use optic.Records.LlvmDefinitionRecord.{LlvmDefinitionRecord, function, direct_alias}
use optic.Records.LlvmModuleRecord.{LlvmModuleRecord, LlvmCollection, no_lto_optimized, collected}
use optic.Records.LlvmProvenance.{LlvmProvenance, off}
use optic.Records.PlacementRecord.{PlacementRecord}
use optic.Records.SourceRecord.{available, unavailable, generated}
use optic.Evidence.{Store}

abbrev pub capture : CaptureId
capture = record { text = codes "kkkkkkkkkkkkkkkkzzzzzzzzzzzzzzzz" }

abbrev pub placement : PlacementRecord
placement = record {
  codegen_unit = codes "cgu0";
  linkage = codes "External";
  visibility = codes "Default";
  local_copy = false;
  size_estimate = 3;
}

-- `app::run` is a function, `app::walk` an alias of it.
abbrev pub run : InstanceRecord
run = record {
  definition = record { crate_name = codes "app"; definition_path = codes "app::run" };
  display_name = codes "run";
  raw_symbol = codes "_run";
  placements = placement ∷ [];
  source = available (record {
    artifact = record { value = 0 };
    range = record { start = 2; length = 4 };
    display_path = codes "/src/lib.rs";
    starting_line = 1;
  });
}

abbrev pub walk : InstanceRecord
walk = record {
  definition = record { crate_name = codes "app"; definition_path = codes "app::walk" };
  display_name = codes "walk";
  raw_symbol = codes "_walk";
  placements = placement ∷ [];
  source = unavailable generated;
}

abbrev pub artifacts : List ArtifactRecord
artifacts =
    record { id = record { value = 0 }; kind = ArtifactKind.source; byte_len = 10 }
    ∷ record { id = record { value = 1 }; kind = ArtifactKind.llvm; byte_len = 100 }
    ∷ []

abbrev pub run_definition : LlvmDefinitionRecord
run_definition = record {
  raw_symbol = codes "_run";
  range = record { start = 40; length = 60 };
  kind = function;
}

abbrev pub walk_alias : LlvmDefinitionRecord
walk_alias = record {
  raw_symbol = codes "_walk";
  range = record { start = 0; length = 8 };
  kind = direct_alias (codes "_run");
}

abbrev pub unit : LlvmModuleRecord
unit = record {
  artifact = record { value = 1 };
  compiler_module = codes "cgu0";
  stage = no_lto_optimized;
  definitions = walk_alias ∷ run_definition ∷ [];
}

-- A module in which a symbol is an alias of itself.
abbrev pub looped : LlvmModuleRecord
looped = record {
  artifact = record { value = 1 };
  compiler_module = codes "cgu1";
  stage = no_lto_optimized;
  definitions =
      record {
        raw_symbol = codes "_walk";
        range = record { start = 0; length = 8 };
        kind = direct_alias (codes "_walk");
      }
      ∷ [];
}

abbrev pub provenance : LlvmProvenance
provenance = record {
  backend = codes "llvm";
  llvm_version = some (codes "20.1.0");
  target = codes "x86_64-unknown-linux-gnu";
  optimization = codes "3";
  lto = off;
  incremental = false;
  linker_plugin_lto = false;
  codegen_units = 1;
  recipe_revision = 1;
}

abbrev pub llvm : LlvmCollection
llvm = collected (unit ∷ [])

abbrev pub manifest : InstanceManifest
manifest = record {
  format_version = 4;
  capture_id = capture;
  instances = walk ∷ run ∷ [];
  artifacts = artifacts;
  llvm_provenance = provenance;
  llvm = llvm;
}

pub manifest_built : new capture (walk ∷ run ∷ []) artifacts provenance llvm ≡ ok manifest
unfolding new check_artifacts check_instances validate_llvm check_module check_modules
    validate_artifact_range ByteRange.new ByteRange.end first_duplicate contains list_beq text_beq
manifest_built = refl

pub manifest_valid : IsManifest manifest
manifest_valid =
    ((new_iff capture (walk ∷ run ∷ []) artifacts provenance llvm manifest).0 manifest_built).1

-- A store with this capture alone.
abbrev pub read_manifest : CaptureId → Result (Unit {0}) InstanceManifest
read_manifest id = if capture_id_eq.beq id capture then ok manifest else err tt

pub read_manifest_valid :
    (id : CaptureId) (m : InstanceManifest)
    → read_manifest id ≡ ok m
    → IsManifest m × (m.capture_id ≡ id)
read_manifest_valid id m h = elim (Bool-cases (capture_id_eq.beq id capture)) [
  | inl same ↦
      let e : manifest ≡ m = ok-inj (read_manifest id) (rw same refl) h in
      (
        subst IsManifest e manifest_valid,
        ap (λ (x : InstanceManifest). x.capture_id) (sym e)
            ∙ sym ((capture_id_eq.beq_iff id capture).0 same),
      )
  | inr other ↦
      absurd (let failed : read_manifest id ≡ err tt = rw other refl in cc (sym failed ∙ h))
]

abbrev pub one_capture : Store (Unit {0})
one_capture = record { read_instances = read_manifest; read_valid = read_manifest_valid }

abbrev pub run_reference : InstanceRef
run_reference = record { capture_id = capture; ordinal = 1 }

abbrev pub walk_reference : InstanceRef
walk_reference = record { capture_id = capture; ordinal = 0 }
