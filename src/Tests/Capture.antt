-- ===== src/Tests/Capture.antt =====
-- A request for which the small capture is stored, and Cargo finds its artifact to be fresh.
use optic.Prelude.{
  ℕ, true, false, none, some, Option, List, [], ◌∷◌, ◌++◌, ◌≡◌, refl, ok, err, if◌then◌else◌,
  list_beq, contains, first_duplicate,
}
use optic.Prelude.Sorting.{sort_by, insert_sorted, cmp}
use optic.Prelude.Text.{codes, text_beq}
use optic.Records.Artifact.{file_name, hex_onto}
use optic.Records.ByteRange
use optic.Records.CaptureRecord
use optic.Records.CaptureRecord.{CaptureAnalysis, CaptureRecord, RawCaptureRecord}
use optic.Records.CargoArtifactRecord
use optic.Records.CargoArtifactRecord.{
  Target, Artifact, CargoArtifactRecord, Orders, sorted_target, normalized,
}
use optic.Records.Collection.{validate_llvm, check_module, check_modules, validate_artifact_range}
use optic.Records.Identity.{list_text_eq}
use optic.Records.InstanceManifest
use optic.Records.InstanceManifest.{check_artifacts, check_instances}
use optic.Records.Validation.{components, require_absolute_normalized_path}
use optic.Store.{join, not_found, file, directory, FileSystem, optic_root, root}
use optic.Store.Candidate.{
  new, candidate_path, check_pointer, check_capture, read_evidence, read_candidate,
}
use optic.Store.Captures.{
  directory_exists, all_exist, namespace_exists, capture_directory, require_instances_file,
  validate_artifact_file, validate_artifacts, validate_capture_scope, read_capture_from_directory,
}
use optic.Store.Effects.{Os, Run}
use optic.Store.Publish.{create_directory, check_ignore, initialize}
use optic.Store.RecordIo.{from_slice, read_bounded_record, read_record}
use optic.Tests.Artifacts.{tools}
use optic.Compiler.Attempt.{
  CargoProcess, compiler_artifact, compiler_message, build_finished, warning, read_messages,
  on_message, record_diagnostic, relay_warnings, replay, run,
}
use optic.Compiler.Observation.{record_artifact, target_beq, artifact_beq, completed}
use optic.Compiler.Probe.{
  fresh, conclude, PreparedBuild, Terminal, verified_stale_receipt, classify_success,
  classify_probe, probe,
}
use optic.Compiler.Probe.Conclusion.{Probed, probe-Probed}
use optic.Capture.{reuse, reused, Cargo, Json, capture, try_reuse}
use optic.Capture.Outcomes.{Outcome, capture-Outcome}
use optic.Tests.Data
use optic.Tests.Data.{manifest}
use optic.Tests.Store.{build, compiler, decode_manifest, metadata_in, entries}
use optic.Tests.Candidates

abbrev app : Target
app = record {
  name = codes "app";
  kind = codes "bin" ∷ [];
  crate_types = codes "bin" ∷ [];
  required_features = [];
  src_path = codes "/src/main.rs";
  other_fields = [];
}

-- The artifact as Cargo reports it on a build, or, fresh, on a probe.
abbrev built : Artifact
built = record {
  package_id = codes "path+file:///src#app@0.1.0";
  manifest_path = codes "/src/Cargo.toml";
  target = app;
  opt_level = codes "3";
  features = codes "b" ∷ codes "a" ∷ [];
  filenames = codes "/target/app" ∷ [];
  executable = some (codes "/target/app");
  fresh = false;
  other_fields = [];
}

abbrev orders : Orders
orders = record { kind = cmp; crate_type = cmp; path = cmp }

abbrev analysis : CaptureAnalysis CargoArtifactRecord
analysis = record {
  request_key = record { text = codes "key" };
  token = record { text = codes "token" };
  artifact = record { artifact = record built { features = codes "a" ∷ codes "b" ∷ [] } };
}

abbrev stored : CaptureRecord CargoArtifactRecord
stored = CaptureRecord.new Data.capture 5 build compiler analysis

-- The probe compiles nothing.
abbrev process : CargoProcess
process = record {
  files = record {
    symlink_metadata = λ path. err not_found;
    read = λ path. err not_found;
    try_exists = λ path. ok false;
    open_file = λ path. err not_found;
    directory = codes "/t";
  };
  create_stderr = ok tt;
  spawn = ok tt;
  messages =
      ok (compiler_artifact (record built { fresh = true }))
      ∷ ok (compiler_artifact (record built { package_id = codes "other" }))
      ∷ ok
          (compiler_message (record { rendered = none; message = codes "unused"; level = warning }))
      ∷ ok (build_finished true)
      ∷ [];
  wait = ok (true, codes "exit status: 0");
}

abbrev prepared : PreparedBuild
prepared = record {
  build = build;
  compiler = compiler;
  request_key = record { text = codes "key" };
  stopped_probe = none;
}

abbrev terminal : Terminal
terminal = record {
  command = λ marker mode. ok process;
  stderr = record { write_all = λ text. ok tt; open_diagnostics = ok tt; copy_diagnostics = ok tt };
}

fresh_probe :
    probe orders (codes "cargo") built.package_id app terminal prepared analysis
    ≡ ok (fresh, prepared)
unfolding probe run read_messages on_message record_diagnostic record_artifact relay_warnings replay
    conclude classify_probe verified_stale_receipt classify_success completed artifact_beq
    target_beq sorted_target normalized sort_by insert_sorted cmp components CargoArtifactRecord.new
    require_absolute_normalized_path list_beq text_beq
fresh_probe = refl

probe-Probed_example :
    Probed orders (codes "cargo") built.package_id app terminal prepared analysis fresh prepared
probe-Probed_example =
    probe-Probed orders (codes "cargo") built.package_id app terminal prepared analysis fresh
      prepared fresh_probe

abbrev disk : FileSystem
disk = record {
  symlink_metadata = metadata_in (
      (join optic_root (codes ".gitignore"), record { kind = file; len = 2 })
      ∷ (join root (codes "staging"), record { kind = directory; len = 0 })
      ∷ (join root (codes "candidates"), record { kind = directory; len = 0 })
      ∷ (Candidates.pointer_path, record { kind = file; len = 1 })
      ∷ entries);
  open_file = λ path.
      if list_text_eq.beq path (join optic_root (codes ".gitignore"))
      then ok (λ n. ok (codes "*" ++ 10 ∷ []))
      else Candidates.disk.open_file path;
}

abbrev os : Os (Unit {0})
os = record {
  observe = λ w. disk;
  read_exact = λ w path position n. ok [];
  change = λ c w. (ok tt, w);
}

abbrev decode_capture : List ℕ → Option (RawCaptureRecord CargoArtifactRecord)
decode_capture bytes =
    if text_beq bytes (1 ∷ [])
    then some (record {
      format_version = 4;
      id = Data.capture;
      completed_at_unix_ms = 5;
      build = build;
      compiler = some compiler;
      analysis = some analysis;
    })
    else none

abbrev json : Json
json = record {
  decode_capture = decode_capture;
  decode_manifest = decode_manifest;
  decode_pointer = Candidates.decode_pointer;
  encode_capture = λ c. (1 ∷ []) ∷ [];
  encode_manifest = λ m. (2 ∷ []) ∷ [];
  encode_pointer = λ p. (3 ∷ []) ∷ [];
}

abbrev cargo : Cargo
cargo = record {
  prepare_build = ok prepared;
  orders = orders;
  path = codes "cargo";
  owner = codes "path+file:///src#app@0.1.0";
  target = app;
  terminal = terminal;
  tools = tools;
  token = record { text = codes "another" };
  place = λ path. codes "in" ∷ [];
}

abbrev first : Run (Unit {0})
first = record { world = tt; changes = [] }

capture_reuses : (capture cargo json os Data.capture 7 reuse first).0 ≡ ok (reused stored)
unfolding capture try_reuse initialize check_ignore create_directory read_candidate new
    candidate_path check_pointer read_evidence check_capture capture_directory namespace_exists
    all_exist directory_exists read_capture_from_directory require_instances_file read_record
    read_bounded_record from_slice validate_capture_scope validate_artifacts validate_artifact_file
    file_name hex_onto list_beq text_beq CaptureRecord.try_from InstanceManifest.try_from
    InstanceManifest.new check_artifacts check_instances validate_llvm check_module check_modules
    validate_artifact_range ByteRange.new ByteRange.end first_duplicate contains probe run
    read_messages on_message record_diagnostic record_artifact relay_warnings replay conclude
    classify_probe verified_stale_receipt classify_success completed artifact_beq target_beq
    sorted_target normalized sort_by insert_sorted cmp components CargoArtifactRecord.new
    require_absolute_normalized_path
capture_reuses = refl

capture-Outcome_example :
    Outcome cargo json os Data.capture 7 reuse first
      (capture cargo json os Data.capture 7 reuse first)
capture-Outcome_example = capture-Outcome cargo json os Data.capture 7 reuse tt
