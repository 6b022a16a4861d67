-- ===== src/Compiler/Decoder/Sound.antt =====
-- The records and the loop over them: they are decoders in the sense of Wire/Sound, up to the end
-- record, which wants the end of the file.
use optic.Prelude.{ℕ, ◌==◌, if◌then◌else◌, Bool, true, false}
use optic.Prelude.Text.{Text}
use optic.Records.Validation.{FilePath}
use optic.Compiler.{shows_number}
use optic.Compiler.Wire.{Decode, invalid}
use optic.Compiler.Wire.Sound.{
  IsDecoder, bind, bind_unit, pure-IsDecoder, lift-IsDecoder, read_exact-IsDecoder,
  read_u32-IsDecoder, read_u64-IsDecoder, read_bool-IsDecoder, read_string-IsDecoder,
}
use optic.Compiler.Protocol.{placement_record, source_file_record, module_record}
use optic.Compiler.Manifest.{Configuration, Progress}
use optic.Compiler.Decoder.{
  read_header, read_configuration, read_placement, read_source_record, source_behind, read_source,
  read_instance_placement, read_source_file, read_expected_module, read_record,
}

module _ (path : FilePath) where
  ruleset fields = (
    bind, bind_unit, pure-IsDecoder, lift-IsDecoder, read_exact-IsDecoder, read_u32-IsDecoder,
    read_u64-IsDecoder, read_bool-IsDecoder, read_string-IsDecoder,
  )

  pub read_header-IsDecoder : (marker : Text) → IsDecoder (read_header path marker)
  unfolding read_header
  read_header-IsDecoder marker = search fields depth 24

  pub read_configuration-IsDecoder : IsDecoder (read_configuration path)
  unfolding read_configuration
  read_configuration-IsDecoder = search fields depth 24

  read_placement-IsDecoder : IsDecoder (read_placement path)
  unfolding read_placement
  read_placement-IsDecoder = search fields depth 24

  read_source_record-IsDecoder : IsDecoder (read_source_record path)
  unfolding read_source_record
  read_source_record-IsDecoder = search fields depth 24

  source_behind-IsDecoder : (b : Bool) (code : ℕ) → IsDecoder (source_behind path b code)
  source_behind-IsDecoder true code = read_source_record-IsDecoder
  source_behind-IsDecoder false code = lift-IsDecoder _

  read_source-IsDecoder : IsDecoder (read_source path)
  unfolding read_source
  read_source-IsDecoder = search (fields, source_behind-IsDecoder) depth 8

  read_instance_placement-IsDecoder : (p : Progress) → IsDecoder (read_instance_placement path p)
  unfolding read_instance_placement
  read_instance_placement-IsDecoder p =
      search (fields, read_placement-IsDecoder, read_source-IsDecoder) depth 8

  read_source_file-IsDecoder : (p : Progress) → IsDecoder (read_source_file path p)
  unfolding read_source_file
  read_source_file-IsDecoder p = search fields depth 8

  read_expected_module-IsDecoder :
      (configuration : Configuration) (p : Progress)
      → IsDecoder (read_expected_module path configuration p)
  unfolding read_expected_module
  read_expected_module-IsDecoder configuration p = search fields depth 8

  on_if :
      {A : Type 0} {d d' : Decode A} (b : Bool)
      → IsDecoder d
      → IsDecoder d'
      → IsDecoder (if b then d else d')
  on_if true m m' = m
  on_if false m m' = m'

  pub read_record-IsDecoder :
      (configuration : Configuration) (kind : ℕ) (p : Progress)
      → IsDecoder (read_record path configuration kind p)
  unfolding read_record
  read_record-IsDecoder configuration kind p =
      on_if (kind == placement_record) (read_instance_placement-IsDecoder p) (
        on_if (kind == source_file_record) (read_source_file-IsDecoder p) (
          on_if (kind == module_record) (read_expected_module-IsDecoder configuration p)
            (lift-IsDecoder (invalid path (shows_number "record kind" kind)))))
