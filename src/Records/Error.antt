-- ===== src/Records/Error.antt =====
-- crates/cargo-optic-records/src/error.rs. A rejected value's printed form, `actual`, is kept as a
-- constructor for each of the format strings, with the values that the string shows.
use optic.Prelude.{ℕ, String, Result}
use optic.Prelude.Text.{Text}

pub data Actual : Type 0 where
  empty_string empty_path empty_list zero_line no_value : Actual
  empty_target_identity zero_provenance : Actual
  relative_path unnormalized_path : Text → Actual
  overflow_at : ℕ → ℕ → Actual
  value : Text → Actual
  duplicate_codegen_unit duplicate_symbol duplicate_instance missing_module : Text → Actual
  duplicate_artifact unknown_artifact : ℕ → Actual
  outside_artifact : ℕ → ℕ → Actual
  unsupported_collection duplicate_module stage_disagrees without_module : Actual

pub data Error : Type 0 where
  invalid_capture_id : Text → Error
  unsupported_format : ℕ → ℕ → Error
  invalid_field : String → Actual → Error

abbrev pub Checked {ℓ} : Type ℓ → Type ℓ
Checked A = Result Error A
