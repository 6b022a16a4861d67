-- ===== src/Records/LlvmProvenance.antt =====
-- crates/cargo-optic-records/src/llvm_provenance.rs
use optic.Prelude.{ℕ, Bool, Option, none, some, List, not, ok, ◌>>◌, ensure, ◌==◌, ◌||◌}
use optic.Prelude.Text.{Text, text_eq, codes}
use optic.Records.Error.{Checked, invalid_field, value, zero_provenance}
use optic.Records.Validation.{require_text}
use optic.Prelude.{List, [], ◌∷◌, contains}

pub data LlvmLto : Type 0 where
  off local_thin cross_crate_thin fat : LlvmLto

-- `if let Some(version) = &llvm_version`
abbrev require_version : Option Text → Checked (Unit {0})
require_version none = ok tt
require_version (some version) = require_text "LLVM version" version

-- The optimization levels that the `matches!` accepts.
abbrev pub levels : List Text
levels = codes "0" ∷ codes "1" ∷ codes "2" ∷ codes "3" ∷ codes "s" ∷ codes "z" ∷ []

pub record LlvmProvenance : Type 0 where
  pub backend : Text
  pub llvm_version : Option Text
  pub target : Text
  pub optimization : Text
  pub lto : LlvmLto
  pub incremental : Bool
  pub linker_plugin_lto : Bool
  pub codegen_units : ℕ
  pub recipe_revision : ℕ

unfoldable pub new :
    Text → Option Text → Text → Text → LlvmLto → Bool → Bool → ℕ → ℕ → Checked LlvmProvenance
new backend llvm_version target optimization lto incremental linker_plugin_lto codegen_units
      recipe_revision =
    do
      require_text "codegen backend" backend
      require_text "LLVM effective target" target
      require_version llvm_version
      ensure (contains levels optimization) (invalid_field "LLVM optimization" (value optimization))
      ensure (not (codegen_units == 0 || recipe_revision == 0))
          (invalid_field "LLVM provenance" zero_provenance)
      ok (record {
        backend = backend;
        llvm_version = llvm_version;
        target = target;
        optimization = optimization;
        lto = lto;
        incremental = incremental;
        linker_plugin_lto = linker_plugin_lto;
        codegen_units = codegen_units;
        recipe_revision = recipe_revision;
      })

pub record RawLlvmProvenance : Type 0 where
  pub backend : Text
  pub llvm_version : Option Text
  pub target : Text
  pub optimization : Text
  pub lto : LlvmLto
  pub incremental : Bool
  pub linker_plugin_lto : Bool
  pub codegen_units : ℕ
  pub recipe_revision : ℕ

unfoldable pub try_from : RawLlvmProvenance → Checked LlvmProvenance
unfolding new
try_from raw =
    new raw.backend raw.llvm_version raw.target raw.optimization raw.lto raw.incremental
      raw.linker_plugin_lto raw.codegen_units raw.recipe_revision
