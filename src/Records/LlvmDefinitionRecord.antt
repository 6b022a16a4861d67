-- ===== src/Records/LlvmDefinitionRecord.antt =====
-- crates/cargo-optic-records/src/llvm.rs: the definitions of a module
use optic.Prelude.{ok, ◌>>◌}
use optic.Prelude.Text.{Text, text_eq}
use optic.Records.Error.{Checked}
use optic.Records.Validation.{require_text}
use optic.Records.ByteRange.{ByteRange}

pub data LlvmDefinitionKind : Type 0 where
  function : LlvmDefinitionKind
  direct_alias : Text → LlvmDefinitionKind
  expression_alias ifunc : LlvmDefinitionKind

-- `if let LlvmDefinitionKind::DirectAlias { target } = &kind`
abbrev pub require_target : LlvmDefinitionKind → Checked (Unit {0})
require_target (direct_alias target) = require_text "LLVM alias target" target
require_target _ = ok tt

pub record LlvmDefinitionRecord : Type 0 where
  pub raw_symbol : Text
  pub range : ByteRange
  pub kind : LlvmDefinitionKind

unfoldable pub new : Text → ByteRange → LlvmDefinitionKind → Checked LlvmDefinitionRecord
new raw_symbol range kind = do
  require_text "LLVM raw symbol" raw_symbol
  require_target kind
  ok (record { raw_symbol = raw_symbol; range = range; kind = kind })

pub record RawLlvmDefinitionRecord : Type 0 where
  pub raw_symbol : Text
  pub range : ByteRange
  pub kind : LlvmDefinitionKind

unfoldable pub try_from : RawLlvmDefinitionRecord → Checked LlvmDefinitionRecord
unfolding new
try_from raw = new raw.raw_symbol raw.range raw.kind
