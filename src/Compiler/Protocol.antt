-- ===== src/Compiler/Protocol.antt =====
-- crates/cargo-optic-compiler/rustc-driver/protocol.rs: the constants that the driver and the
-- decoder share, and the header of manifests and receipts.
use optic.Prelude.{ℕ, Option, none, some, List, [], ◌∷◌, ◌++◌, length, leb, if◌then◌else◌}
use optic.Prelude.Text.{Text, codes}
use optic.Compiler.Wire.{to_le_bytes}

abbrev pub u32_max : ℕ
u32_max = 4294967295

abbrev pub manifest_magic : List ℕ
manifest_magic = codes "CARGO_OPTIC_1" ++ 0 ∷ 0 ∷ 0 ∷ []

abbrev pub protocol_version : ℕ
protocol_version = 3

abbrev pub end_record : ℕ
end_record = 0

abbrev pub placement_record : ℕ
placement_record = 1

abbrev pub configuration_record : ℕ
configuration_record = 2

abbrev pub source_file_record : ℕ
source_file_record = 3

abbrev pub module_record : ℕ
module_record = 4

abbrev pub source_available : ℕ
source_available = 0

abbrev pub source_nonlocal : ℕ
source_nonlocal = 1

abbrev pub source_unloaded : ℕ
source_unloaded = 2

abbrev pub source_generated : ℕ
source_generated = 3

abbrev pub source_unsupported_span : ℕ
source_unsupported_span = 4

abbrev pub source_outside_package : ℕ
source_outside_package = 5

abbrev pub lto_off : ℕ
lto_off = 0

abbrev pub lto_local_thin : ℕ
lto_local_thin = 1

abbrev pub lto_cross_crate_thin : ℕ
lto_cross_crate_thin = 2

abbrev pub lto_fat : ℕ
lto_fat = 3

abbrev pub llvm_supported : ℕ
llvm_supported = 0

abbrev pub llvm_unsupported_incremental : ℕ
llvm_unsupported_incremental = 1

abbrev pub llvm_unsupported_cross_crate_thin : ℕ
llvm_unsupported_cross_crate_thin = 2

abbrev pub llvm_unsupported_fat : ℕ
llvm_unsupported_fat = 3

abbrev pub llvm_unsupported_linker_plugin : ℕ
llvm_unsupported_linker_plugin = 4

abbrev pub llvm_unsupported_other_backend : ℕ
llvm_unsupported_other_backend = 5

abbrev pub llvm_unsupported_unverified_compiler : ℕ
llvm_unsupported_unverified_compiler = 6

abbrev pub llvm_recipe_revision : ℕ
llvm_recipe_revision = 1

-- `none` is the panic at a marker that is too long.
unfoldable pub header : Text → Option (List ℕ)
unfolding to_le_bytes
header marker =
    if leb (length marker) u32_max
    then some (
        manifest_magic
        ++ (to_le_bytes 4 protocol_version ++ (to_le_bytes 4 (length marker) ++ marker)))
    else none
