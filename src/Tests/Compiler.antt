-- ===== src/Tests/Compiler.antt =====
-- A small analysis: one codegen unit with one function, written and read back.
use optic.Prelude.{
  ℕ, ◌≡◌, ◌≢◌, refl, ◌∙◌, ap, arith, true, false, none, some, List, [], ◌∷◌, ◌++◌, Result, ok, err,
  map_err,
}
use optic.Prelude.Text.{Text, codes}
use optic.Records.Artifact.{source}
use optic.Records.DefinitionRecord
use optic.Records.InstanceRecord
use optic.Records.PlacementRecord
use optic.Records.SourceRecord.{unavailable, nonlocal}
use optic.Records.LlvmProvenance.{LlvmLto}
use optic.Records.Validation.{FilePath}
use optic.Compiler.Wire.{to_le_bytes, failed, exhausted}
use optic.Compiler.Format.{IsString}
use optic.Compiler.Writer
use optic.Compiler.Manifest.{CompilerManifest}
use optic.Compiler.Decoder.{read_manifest}
use optic.Compiler.Decoder.Ends.{read_manifest-ends, read_manifest-whole}
use optic.Compiler.Session.{
  CodegenUnit, function, unit_records, IsConfiguration, IsUnit, manifest_of, write_manifest,
}
use optic.Compiler.Session.Fields.{header_fields, configuration_fields, records_bytes}
use optic.Compiler.Session.RoundTrip.{read_manifest-write_manifest}
use optic.Compiler.Format.{u32_bytes}
use optic.LlvmIndex.Symbol.{is_utf8}

abbrev willing : Writer.FileSystem
willing = record {
  create = λ _. none;
  write_all = λ _ _. none;
  flush = λ _. none;
  rename = λ _ _. none;
}

abbrev path : FilePath
path = codes "/attempt/manifest"

abbrev temporary : FilePath
temporary = codes "/attempt/manifest.tmp"

abbrev marker : Text
marker = codes "selected"

abbrev settings : Writer.Configuration
settings = record {
  backend = codes "llvm";
  target = codes "x86_64";
  optimization = Writer.OptLevel.aggressive;
  lto = Writer.Lto.off;
  incremental = false;
  linker_plugin = false;
  codegen_units = 16;
  unsupported = 0;
}

abbrev unit : CodegenUnit
unit = record {
  name = codes "cgu.0";
  bitcode = codes "/attempt/llvm/cgu.0.bc";
  items =
      function (record {
        concrete = record {
          definition_crate = codes "demo";
          definition_path = codes "demo::run";
          display_name = codes "demo::run::<u8>";
          raw_symbol = codes "_RNv4demo3run";
        };
        placement_data = record {
          linkage = Writer.Linkage.external;
          visibility = Writer.Visibility.default;
          inlined = false;
          size_estimate = 7;
        };
        new_files = (0, 120) ∷ [];
        origin = Writer.unavailable 1;
      })
      ∷ [];
}

abbrev published : Writer.ManifestWriter
published = record {
  path = path;
  temporary_path = temporary;
  file =
      header_fields marker
      ++ (configuration_fields settings
          ++ (records_bytes (unit_records settings (unit ∷ [])) ++ u32_bytes 0));
  place = path;
}

written : write_manifest willing path temporary (ok marker) settings (unit ∷ []) ≡ ok published
unfolding write_manifest Writer.write_module Writer.write_source_file Writer.write_placement
written = refl

abbrev expected : CompilerManifest
expected = record {
  instances =
      record {
        definition = record { crate_name = codes "demo"; definition_path = codes "demo::run" };
        display_name = codes "demo::run::<u8>";
        raw_symbol = codes "_RNv4demo3run";
        placements =
            record {
              codegen_unit = codes "cgu.0";
              linkage = codes "External";
              visibility = codes "Default";
              local_copy = false;
              size_estimate = 7;
            }
            ∷ [];
        source = unavailable nonlocal;
      }
      ∷ [];
  artifacts = record { id = record { value = 0 }; kind = source; byte_len = 120 } ∷ [];
  configuration = record {
    backend = codes "llvm";
    target = codes "x86_64";
    optimization = codes "3";
    lto = LlvmLto.off;
    incremental = false;
    linker_plugin = false;
    codegen_units = 16;
    unsupported = none;
  };
  modules = record { name = codes "cgu.0"; path = codes "/attempt/llvm/cgu.0.bc" } ∷ [];
}

settings_manifest : manifest_of path settings (unit ∷ []) ≡ ok expected
unfolding manifest_of PlacementRecord.new Writer.linkage_name Writer.visibility_name
    DefinitionRecord.new InstanceRecord.new optic.Prelude.first_duplicate Writer.optimization_name
settings_manifest = refl

marker-IsString : IsString marker
unfolding is_utf8
marker-IsString = record { utf8 = refl; short = omega arith }

settings-IsConfiguration : IsConfiguration settings
unfolding is_utf8
settings-IsConfiguration = record {
  backend = record { utf8 = refl; short = omega arith };
  target = record { utf8 = refl; short = omega arith };
  codegen_units = omega arith;
  unsupported = omega arith;
}

unit-IsUnit : IsUnit unit × Unit {0}
unfolding is_utf8
unit-IsUnit = (
  (
    record { utf8 = refl; short = omega arith },
    record { utf8 = refl; short = omega arith },
    (
      (
        ((omega arith, omega arith), tt),
        (
          record {
            definition_crate = record { utf8 = refl; short = omega arith };
            definition_path = record { utf8 = refl; short = omega arith };
            display_name = record { utf8 = refl; short = omega arith };
            raw_symbol = record { utf8 = refl; short = omega arith };
          },
          record { utf8 = refl; short = omega arith },
          omega arith,
          (omega arith, omega arith),
        ),
      ),
      tt,
    ),
  ),
  tt,
)

read_manifest-write_manifest_example :
    (published.place ≡ path)
    × (read_manifest path (ok (record { bytes = published.file; ending = none })) marker
        ≡ map_err failed (manifest_of path settings (unit ∷ [])))
read_manifest-write_manifest_example =
    read_manifest-write_manifest willing path temporary marker settings (unit ∷ []) published
      marker-IsString settings-IsConfiguration unit-IsUnit written

-- All but the last byte.
abbrev front : List ℕ
front =
    header_fields marker
    ++ (configuration_fields settings
        ++ (records_bytes (unit_records settings (unit ∷ [])) ++ 0 ∷ 0 ∷ 0 ∷ []))

accepted :
    read_manifest path (ok (record { bytes = front ++ 0 ∷ []; ending = none })) marker ≡ ok expected
unfolding unit_records to_le_bytes Writer.optimization_name Writer.linkage_name
    Writer.visibility_name
accepted =
    (read_manifest-write_manifest willing path temporary marker settings (unit ∷ []) published
      marker-IsString settings-IsConfiguration unit-IsUnit written).1
    ∙ ap (map_err failed) settings_manifest

read_manifest-whole_example :
    read_manifest path (ok (record { bytes = front; ending = none })) marker ≢ ok expected
read_manifest-whole_example =
    read_manifest-whole path marker front (0 ∷ []) none none expected expected accepted (cc)

read_manifest-ends_example :
    read_manifest path (ok (record { bytes = header_fields marker; ending = none })) marker
    ≢ err exhausted
read_manifest-ends_example =
    read_manifest-ends path marker (ok (record { bytes = header_fields marker; ending = none }))
