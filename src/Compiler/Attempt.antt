-- ===== src/Compiler/Attempt.antt =====
-- crates/cargo-optic-compiler/src/attempt.rs: one run of Cargo, what its messages say, and the
-- diagnostics that are kept. The process, the directory of the attempt and the standard error are
-- given by interfaces.
use optic.Prelude.{
  ℕ, Bool, true, false, ◌||◌, Option, none, some, List, [], ◌∷◌, ◌++◌, Result, ok, err, ◌>>=◌, ◌>>◌,
  map_err, for_each, is_empty, if◌then◌else◌,
}
use optic.Prelude.Text.{Text, codes}
use optic.Records.CargoArtifactRecord.{Target, Artifact, Orders}
use optic.Records.Validation.{FilePath}
use optic.Store.{IoError, Metadata}
use optic.Compiler.{Error, filesystem, start_process, process_failed}
use optic.Compiler.Wire.{Input}
use optic.Compiler.Observation.{CargoObservation, record_artifact}

-- The levels of diagnostics: the rest are notes and helps.
pub data Level : Type 0 where
  error ice failure_note warning other_level : Level

pub record Diagnostic : Type 0 where
  pub rendered : Option Text
  pub message : Text
  pub level : Level

-- The messages that Cargo prints: the rest are passed over.
pub data CargoMessage : Type 0 where
  compiler_artifact : Artifact → CargoMessage
  build_finished : Bool → CargoMessage
  compiler_message : Diagnostic → CargoMessage
  text_line : Text → CargoMessage
  other_message : CargoMessage

-- The calls of the file system in the directory of an attempt.
pub record Files : Type 0 where
  pub symlink_metadata : FilePath → Result IoError Metadata
  pub read : FilePath → Result IoError (List ℕ)
  pub try_exists : FilePath → Result IoError Bool
  pub open_file : FilePath → Result IoError Input
  pub directory : FilePath

-- Cargo's process: the messages are all that it prints, and `wait` gives whether it succeeded, with
-- its status as text.
pub record CargoProcess : Type 0 where
  pub files : Files
  pub create_stderr : Result IoError (Unit {0})
  pub spawn : Result IoError (Unit {0})
  pub messages : List (Result IoError CargoMessage)
  pub wait : Result IoError (Bool × Text)

-- The standard error, and copying Cargo's to it.
pub record Stderr : Type 0 where
  pub write_all : Text → Result IoError (Unit {0})
  pub open_diagnostics : Result IoError (Unit {0})
  pub copy_diagnostics : Result IoError (Unit {0})

-- What `run` keeps of the messages.
pub record Recorded : Type 0 where
  pub observation : CargoObservation
  pub diagnostics : List Text
  pub warnings : List Text
  pub read_error : Option IoError

pub record CargoAttempt : Type 0 where
  pub files : Files
  pub success : Bool
  pub status : Text
  pub observation : CargoObservation
  pub diagnostics : List Text
  pub warnings : List Text

abbrev pub nothing : Recorded
nothing = record {
  observation = record { selected = []; finished = []; has_errors = false };
  diagnostics = [];
  warnings = [];
  read_error = none;
}

abbrev pub is_failure : Level → Bool
is_failure error = true
is_failure ice = true
is_failure failure_note = true
is_failure warning = false
is_failure other_level = false

abbrev rendered_text : Option Text → Text → Text
rendered_text none message = message ++ 10 ∷ []
rendered_text (some text) message = text

abbrev at_level : Level → Text → Recorded → Recorded
at_level warning text r = record r { warnings = r.warnings ++ text ∷ [] }
at_level level text r = record r {
  observation = record r.observation { has_errors = r.observation.has_errors || is_failure level };
  diagnostics = r.diagnostics ++ text ∷ [];
}

unfoldable pub record_diagnostic : Diagnostic → Recorded → Recorded
record_diagnostic d r = at_level d.level (rendered_text d.rendered d.message) r

-- `get_or_insert`
abbrev first_error : Option IoError → IoError → Option IoError
first_error none e = some e
first_error (some first) e = some first

module _ (orders : Orders) (owner : Text) (target : Target) where
  -- One message of the loop of `run`.
  unfoldable pub on_message : Result IoError CargoMessage → Recorded → Recorded
  unfolding record_artifact record_diagnostic
  on_message (ok (compiler_artifact artifact)) r = record r {
    observation = record_artifact orders artifact owner target r.observation;
  }
  on_message (ok (build_finished success)) r = record r {
    observation = record r.observation { finished = r.observation.finished ++ success ∷ [] };
  }
  on_message (ok (compiler_message diagnostic)) r = record_diagnostic diagnostic r
  on_message (ok (text_line line)) r =
      if is_empty line
      then r
      else record r { diagnostics = r.diagnostics ++ (line ++ 10 ∷ []) ∷ [] }
  on_message (ok other_message) r = r
  on_message (err e) r = record r { read_error = first_error r.read_error e }

  unfoldable pub read_messages : List (Result IoError CargoMessage) → Recorded → Recorded
  unfolding on_message
  read_messages [] r = r
  read_messages (message ∷ messages) r = read_messages messages (on_message message r)

abbrev pub stderr_path : FilePath
stderr_path = codes "stderr"

module _ (stderr : Stderr) where
  abbrev write_diagnostic : Text → Result Error (Unit {0})
  write_diagnostic text =
      map_err (filesystem "write Cargo diagnostics to" stderr_path) (stderr.write_all text)

  unfoldable pub relay_warnings : CargoAttempt → Result Error CargoAttempt
  relay_warnings attempt = do
    for_each write_diagnostic attempt.warnings
    ok (record attempt { warnings = [] })

  unfoldable pub replay : CargoAttempt → Result Error CargoAttempt
  unfolding relay_warnings
  replay attempt = do
    relayed ← relay_warnings attempt
    for_each write_diagnostic relayed.diagnostics
    map_err (filesystem "open Cargo diagnostic file" stderr_path) stderr.open_diagnostics
    map_err (filesystem "replay Cargo diagnostics from" stderr_path) stderr.copy_diagnostics
    ok relayed

  abbrev attempt_of : CargoProcess → Recorded → Bool × Text → CargoAttempt
  attempt_of process r (success, status) = record {
    files = process.files;
    success = success;
    status = status;
    observation = r.observation;
    diagnostics = r.diagnostics;
    warnings = r.warnings;
  }

  abbrev unless_unreadable : Option IoError → CargoAttempt → Result Error CargoAttempt
  unless_unreadable none attempt = ok attempt
  unless_unreadable (some e) attempt = do
    _ ← replay attempt
    err (filesystem "read Cargo messages for" stderr_path e)

  unfoldable pub run : Orders → FilePath → Text → Target → CargoProcess → Result Error CargoAttempt
  unfolding read_messages replay
  run orders cargo owner target process = do
    map_err (filesystem "create Cargo diagnostic file" stderr_path) process.create_stderr
    map_err (start_process cargo) process.spawn
    status ← map_err (filesystem "wait for Cargo process" cargo) process.wait
    let recorded = read_messages orders owner target process.messages nothing
    unless_unreadable recorded.read_error (attempt_of process recorded status)

-- `CargoAttempt::failure`
abbrev pub failure : {A : Type 0} → FilePath → CargoAttempt → Result Error A
failure cargo attempt = err (process_failed cargo attempt.status none)
