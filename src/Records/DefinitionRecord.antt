-- ===== src/Records/DefinitionRecord.antt =====
-- crates/cargo-optic-records/src/definition_record.rs
use optic.Prelude.{ok, ◌>>◌}
use optic.Prelude.Text.{Text, text_eq}
use optic.Records.Error.{Checked}
use optic.Records.Validation.{require_text}

pub record DefinitionRecord : Type 0 where
  pub crate_name : Text
  pub definition_path : Text

unfoldable pub new : Text → Text → Checked DefinitionRecord
new crate_name definition_path = do
  require_text "definition crate name" crate_name
  require_text "definition path" definition_path
  ok (record { crate_name = crate_name; definition_path = definition_path })

pub record RawDefinitionRecord : Type 0 where
  pub crate_name : Text
  pub definition_path : Text

unfoldable pub try_from : RawDefinitionRecord → Checked DefinitionRecord
unfolding new
try_from raw = new raw.crate_name raw.definition_path
