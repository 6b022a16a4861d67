-- ===== src/Compiler.antt =====
-- The crate `cargo-optic-compiler`, with the rustc driver that it builds: its errors (error.rs), and
-- in child modules the private manifest that the driver writes and the crate reads.
pub mod Wire
pub mod Protocol
pub mod FilePaths
pub mod Format
pub mod Writer
pub mod Session
pub mod Manifest
pub mod Attempt
pub mod Artifacts
pub mod Collection
pub mod Decoder
pub mod Observation
pub mod Probe
use optic.Prelude.{ℕ, String, Option}
use optic.Prelude.Text.{Text}
use optic.Records.Error.{Error as RecordError}
use optic.Records.Validation.{FilePath}
use optic.Store.{IoError}

-- A message, with the value that it shows.
pub data Message : Type 0 where
  plain : String → Message
  shows_number : String → ℕ → Message
  shows_text : String → Text → Message

-- `panicked` stands for a failed `expect`.
pub data Error : Type 0 where
  compiler_environment : Message → Error
  filesystem : String → FilePath → IoError → Error
  invalid_manifest : FilePath → Message → Error
  package_not_found : Text → Error
  target_not_found : Text → Text → Error
  start_process : FilePath → IoError → Error
  process_failed : FilePath → Text → Option Text → Error
  invalid_record : RecordError → Error
  panicked : String → Error
