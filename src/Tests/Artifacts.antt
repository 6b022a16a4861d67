-- ===== src/Tests/Artifacts.antt =====
-- The materialization of the small LLVM module, behind one source artifact.
use optic.Prelude.{◌≡◌, refl, true, none, some, List, [], ◌∷◌, ◌++◌, ok, first_duplicate, contains}
use optic.Prelude.Text.{codes, text_beq, starts_with, split_once}
use optic.Records.Artifact.{ArtifactKind, ArtifactRecord, file_name, hex_onto}
use optic.Records.LlvmModuleRecord
use optic.Records.LlvmModuleRecord.{LlvmModuleRecord, no_lto_optimized}
use optic.Store.{file}
use optic.Compiler.Artifacts.{
  Tools, collect_modules, disassembler_of, first_id, materialize, materialize_each, max_id,
  regular_file, run, stage_of,
}
use optic.Compiler.Artifacts.Versions.{disassembler_version, lines, strip_prefix, trim}
use optic.Compiler.Artifacts.Identifiers.{IsComplete, collect_modules-IsComplete}
use optic.Compiler.Manifest.{ExpectedModule}
use optic.Tests.Data.{provenance}
use optic.Tests.LlvmIndex.{text, expected, index_small}
use optic.Tests.Store.{compiler}

abbrev pub tools : Tools
tools = record {
  output = λ program arguments. ok (record {
    success = true;
    status = codes "exit status: 0";
    stdout = codes "LLVM (http://llvm.org/):\n  LLVM version 20.1.0-rust-1.90.0-stable\n";
    stderr = [];
  });
  symlink_metadata = λ path. ok (record { kind = file; len = 102 });
  is_regular = λ path. true;
  open_file = λ path. ok (text, none);
  show_error = λ e. [];
  show_index_error = λ e. [];
}

abbrev unit : ExpectedModule
unit = record { name = codes "cgu0"; path = codes "/t/llvm/cgu0.bc" }

abbrev sources : List ArtifactRecord
sources = record { id = record { value = 0 }; kind = ArtifactKind.source; byte_len = 10 } ∷ []

abbrev made : List LlvmModuleRecord × List ArtifactRecord
made = (
  record {
    artifact = record { value = 1 };
    compiler_module = codes "cgu0";
    stage = no_lto_optimized;
    definitions = expected;
  }
      ∷ [],
  sources ++ record { id = record { value = 1 }; kind = ArtifactKind.llvm; byte_len = 102 } ∷ [],
)

versions :
    disassembler_version (codes "  LLVM version 22.1.8-rust-1.98.1-stable\n")
    ≡ some (codes "22.1.8")
unfolding disassembler_version lines trim split_once strip_prefix starts_with
versions = refl

made_small : collect_modules tools (unit ∷ []) compiler (codes "/t") provenance sources ≡ ok made
unfolding collect_modules disassembler_version lines trim split_once strip_prefix starts_with run
    stage_of first_id max_id materialize_each materialize regular_file file_name hex_onto text_beq
    LlvmModuleRecord.new first_duplicate contains
made_small = cc index_small

collect_modules-IsComplete_example :
    IsComplete tools (unit ∷ []) (codes "/t") (disassembler_of tools compiler) sources made
collect_modules-IsComplete_example =
    collect_modules-IsComplete tools (unit ∷ []) compiler (codes "/t") provenance sources made
      (tt, tt) made_small
