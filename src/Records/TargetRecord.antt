-- ===== src/Records/TargetRecord.antt =====
-- crates/cargo-optic-records/src/target.rs
use optic.Prelude.{ok, ◌>>◌}
use optic.Prelude.Text.{Text, text_eq, codes}
use optic.Records.Error.{Checked}
use optic.Records.Validation.{require_text}

pub data CargoTargetKind : Type 0 where
  lib bin example bench : CargoTargetKind

-- `Display`
unfoldable pub display : CargoTargetKind → Text
display lib = codes "lib"
display bin = codes "bin"
display example = codes "example"
display bench = codes "bench"

pub record TargetRecord : Type 0 where
  pub name : Text
  pub kind : CargoTargetKind

unfoldable pub new : Text → CargoTargetKind → Checked TargetRecord
new name kind = do require_text "target name" name; ok (record { name = name; kind = kind })

pub record RawTargetRecord : Type 0 where
  pub name : Text
  pub kind : CargoTargetKind

unfoldable pub try_from : RawTargetRecord → Checked TargetRecord
unfolding new
try_from raw = new raw.name raw.kind
