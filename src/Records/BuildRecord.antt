-- ===== src/Records/BuildRecord.antt =====
-- crates/cargo-optic-records/src/build_record.rs
use optic.Prelude.{List, not, ok, ◌>>◌, ensure, is_empty}
use optic.Prelude.Text.{Text, text_eq}
use optic.Records.Error.{Checked, invalid_field, empty_list, relative_path}
use optic.Records.Validation.{FilePath, require_text, require_path, is_absolute}
use optic.Records.TargetRecord.{TargetRecord}

pub record BuildRecord : Type 0 where
  pub package_name : Text
  pub package_version : Text
  pub target : TargetRecord
  pub profile : Text
  pub cargo_program : FilePath
  pub invocation_directory : FilePath
  pub cargo_arguments : List Text

unfoldable pub new :
    Text → Text → TargetRecord → Text → FilePath → FilePath → List Text → Checked BuildRecord
new package_name package_version target profile cargo_program invocation_directory cargo_arguments =
    do
      require_text "package name" package_name
      require_text "package version" package_version
      require_text "profile" profile
      require_path "Cargo program" cargo_program
      require_path "invocation directory" invocation_directory
      ensure (is_absolute invocation_directory)
          (invalid_field "invocation directory" (relative_path invocation_directory))
      ensure (not (is_empty cargo_arguments)) (invalid_field "Cargo arguments" empty_list)
      ok (record {
        package_name = package_name;
        package_version = package_version;
        target = target;
        profile = profile;
        cargo_program = cargo_program;
        invocation_directory = invocation_directory;
        cargo_arguments = cargo_arguments;
      })

pub record RawBuildRecord : Type 0 where
  pub package_name : Text
  pub package_version : Text
  pub target : TargetRecord
  pub profile : Text
  pub cargo_program : FilePath
  pub invocation_directory : FilePath
  pub cargo_arguments : List Text

unfoldable pub try_from : RawBuildRecord → Checked BuildRecord
unfolding new
try_from raw =
    new raw.package_name raw.package_version raw.target raw.profile raw.cargo_program
      raw.invocation_directory raw.cargo_arguments
