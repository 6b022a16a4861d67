-- ===== src/Compiler/Session/Fields.antt =====
-- The wire format that protocol.rs documents: the bytes of each part of a manifest.
use optic.Prelude.{ℕ, List, [], ◌∷◌, ◌++◌}
use optic.Prelude.Text.{Text}
use optic.Compiler.Protocol.{
  manifest_magic, protocol_version, configuration_record, source_available, placement_record,
  source_file_record, module_record, llvm_recipe_revision,
}
use optic.Compiler.Format.{u32_bytes, u64_bytes, string_bytes}
use optic.Compiler.Writer.{
  ConcreteInstance, MonoItemData, Source, available, unavailable, linkage_name, visibility_name,
  optimization_name, lto_code, bool_code,
}
use optic.Compiler.Writer
use optic.Compiler.Session.{Record, placement, source_file, expected_module}

abbrev pub header_fields : Text → List ℕ
header_fields marker = manifest_magic ++ (u32_bytes protocol_version ++ string_bytes marker)

abbrev pub source_fields : Source → List ℕ
source_fields (available span) =
    u32_bytes source_available
    ++ (u64_bytes span.artifact
        ++ (u64_bytes span.start
            ++ (u64_bytes span.length
                ++ (string_bytes span.display_path ++ u64_bytes span.starting_line))))
source_fields (unavailable reason) = u32_bytes reason

abbrev pub placement_fields : ConcreteInstance → Text → MonoItemData → List ℕ
placement_fields i unit item =
    string_bytes i.definition_crate
    ++ (string_bytes i.definition_path
        ++ (string_bytes i.display_name
            ++ (string_bytes i.raw_symbol
                ++ (string_bytes unit
                    ++ (string_bytes (linkage_name item.linkage)
                        ++ (string_bytes (visibility_name item.visibility)
                            ++ (u32_bytes (bool_code item.inlined)
                                ++ u64_bytes item.size_estimate)))))))

abbrev pub configuration_fields : Writer.Configuration → List ℕ
configuration_fields c =
    u32_bytes configuration_record
    ++ (string_bytes c.backend
        ++ (string_bytes c.target
            ++ (string_bytes (optimization_name c.optimization)
                ++ (u32_bytes (lto_code c.lto)
                    ++ (u32_bytes (bool_code c.incremental)
                        ++ (u32_bytes (bool_code c.linker_plugin)
                            ++ (u32_bytes c.codegen_units
                                ++ (u32_bytes llvm_recipe_revision
                                    ++ u32_bytes c.unsupported))))))))

-- A record behind its kind.
abbrev pub record_fields : Record → List ℕ
record_fields (placement concrete unit item origin) =
    placement_fields concrete unit item ++ source_fields origin
record_fields (source_file id byte_length) = u64_bytes id ++ u64_bytes byte_length
record_fields (expected_module name file) = string_bytes name ++ string_bytes file

abbrev pub record_kind : Record → ℕ
record_kind (placement concrete unit item origin) = placement_record
record_kind (source_file id byte_length) = source_file_record
record_kind (expected_module name file) = module_record

-- The kind of the record and its fields.
abbrev pub record_bytes : Record → List ℕ
record_bytes r = u32_bytes (record_kind r) ++ record_fields r

abbrev pub records_bytes : List Record → List ℕ
records_bytes [] = []
records_bytes (r ∷ rs) = record_bytes r ++ records_bytes rs
