-- ===== src/Compiler/Session/Reading.antt =====
-- The decoder reads each record back from its bytes.
use optic.Prelude.{ℕ, ◌≤◌, ◌≡◌, ◌≢◌, refl, sym, subst, arith, false, [], ◌++◌, ok, ◌==◌}
use optic.Prelude.Text.{Text, text_beq, text_beq_iff}
use optic.Records.Decimal.{u64_max}
use optic.Records.SourceRecord.{SourceAvailability}
use optic.Records.PlacementRecord.{PlacementRecord}
use optic.Records.Validation.{FilePath}
use optic.LlvmIndex.Symbol.{is_utf8}
use optic.Compiler.{Message, shows_text}
use optic.Compiler.Protocol.{u32_max, manifest_magic, source_available}
use optic.Compiler.Wire.{lift}
use optic.Compiler.Format.{
  Reads, value, last, check, passed, lifted, sequence, checked, sequence_last, and_then,
  and_then-ok, IsString, exact, u32, u64, string, flag,
}
use optic.Compiler.Writer.{
  ConcreteInstance, MonoItemData, Source, SourceSpan, Lto, Linkage, Visibility, OptLevel, available,
  unavailable, linkage_name, visibility_name, optimization_name, lto_code, bool_code,
}
use optic.Compiler.Writer
use optic.Compiler.Manifest.{
  require, InstanceKey, Progress, lto_of, unsupported_of, unavailable_of, add_placement,
}
use optic.Compiler.Manifest
use optic.Compiler.Decoder.{
  read_header, read_configuration, read_placement, read_source_record, source_behind, read_record,
  read_source, read_instance_placement, read_source_file, read_expected_module,
}
use optic.Compiler.Session.Fields.{
  header_fields, source_fields, placement_fields, configuration_fields, record_fields, record_kind,
}
use optic.Compiler.Session.{
  IsSource, IsInstance, IsConfiguration, key_of, lto_of_session, placement_of, range_of, record_of,
  source_of, configuration_of, accept, Record, placement, source_file, expected_module, IsRecord,
}

linkage_name-IsString : (l : Linkage) → IsString (linkage_name l)
unfolding linkage_name is_utf8
linkage_name-IsString Linkage.available_externally = record { utf8 = refl; short = omega arith }
linkage_name-IsString Linkage.common = record { utf8 = refl; short = omega arith }
linkage_name-IsString Linkage.external_weak = record { utf8 = refl; short = omega arith }
linkage_name-IsString Linkage.external = record { utf8 = refl; short = omega arith }
linkage_name-IsString Linkage.internal = record { utf8 = refl; short = omega arith }
linkage_name-IsString Linkage.link_once_any = record { utf8 = refl; short = omega arith }
linkage_name-IsString Linkage.link_once_odr = record { utf8 = refl; short = omega arith }
linkage_name-IsString Linkage.weak_any = record { utf8 = refl; short = omega arith }
linkage_name-IsString Linkage.weak_odr = record { utf8 = refl; short = omega arith }

visibility_name-IsString : (v : Visibility) → IsString (visibility_name v)
unfolding visibility_name is_utf8
visibility_name-IsString Visibility.default = record { utf8 = refl; short = omega arith }
visibility_name-IsString Visibility.hidden = record { utf8 = refl; short = omega arith }
visibility_name-IsString Visibility.protected = record { utf8 = refl; short = omega arith }

optimization_name-IsString : (o : OptLevel) → IsString (optimization_name o)
unfolding optimization_name is_utf8
optimization_name-IsString OptLevel.no = record { utf8 = refl; short = omega arith }
optimization_name-IsString OptLevel.less = record { utf8 = refl; short = omega arith }
optimization_name-IsString OptLevel.more = record { utf8 = refl; short = omega arith }
optimization_name-IsString OptLevel.aggressive = record { utf8 = refl; short = omega arith }
optimization_name-IsString OptLevel.size = record { utf8 = refl; short = omega arith }
optimization_name-IsString OptLevel.size_min = record { utf8 = refl; short = omega arith }

==-false : (n : ℕ) → n ≢ 0 → (n == 0) ≡ false
==-false n h = ground arith

module _ (path : FilePath) where
  lto_of-code : (l : Lto) → lto_of path (lto_code l) ≡ ok (lto_of_session l)
  unfolding lto_of
  lto_of-code Lto.off = refl
  lto_of-code Lto.thin_local = refl
  lto_of-code Lto.thin = refl
  lto_of-code Lto.fat = refl

  require_same : (t : Text) (m : Message) → require path (text_beq t t) m ≡ ok tt
  require_same t m = rw (text_beq_iff t t).1 refl

  require_same-Reads :
      (t : Text) (m : Message) → Reads [] (lift (require path (text_beq t t) m)) (ok tt)
  require_same-Reads t m =
      subst (λ r. Reads [] (lift r) (ok tt)) (sym (require_same t m)) (lifted (ok tt))

  pub header-Reads :
      (marker : Text)
      → IsString marker
      → Reads (header_fields marker) (read_header path marker) (ok tt)
  unfolding read_header
  header-Reads marker h = value _ (exact path "manifest header" manifest_magic) (
      passed _
        (require_same manifest_magic
          (shows_text "manifest header must match Cargo Optic" manifest_magic))
        (value _ (u32 path "protocol version" 3 (omega arith)) (
          passed _ refl
            (last _ (string path "selected marker" marker h) (require_same-Reads marker _)))))

  lto_code_small : (l : Lto) → lto_code l ≤ u32_max
  lto_code_small l = ground arith

  pub configuration-Reads :
      (c : Writer.Configuration)
      → IsConfiguration c
      → Reads (configuration_fields c) (read_configuration path) (configuration_of path c)
  unfolding read_configuration
  configuration-Reads c h = value _ (u32 path "configuration record kind" 2 (omega arith)) (
      passed _ refl (
        value _ (string path "codegen backend" c.backend h.backend) (
          value _ (string path "effective target" c.target h.target) (
            value _ (string path "optimization level" _ (optimization_name-IsString c.optimization))
              (value _ (u32 path "effective LTO" (lto_code c.lto) (lto_code_small c.lto)) (
                check _ (lto_of-code c.lto) (
                  value _ (flag path "incremental compilation" c.incremental) (
                    value _ (flag path "linker-plugin LTO" c.linker_plugin) (
                      value _ (u32 path "configured codegen units" c.codegen_units h.codegen_units)
                        (value _ (u32 path "LLVM recipe revision" 1 (omega arith)) (
                          passed _ refl (
                            last _
                              (u32 path "unsupported LLVM configuration" c.unsupported
                                h.unsupported)
                              (checked _ (unsupported_of path c.unsupported)
                                (λ u. lifted _))))))))))))))

  pub placement-Reads :
      (i : ConcreteInstance) (unit : Text) (item : MonoItemData)
      → IsInstance i
      → IsString unit
      → item.size_estimate ≤ u64_max
      → Reads
          (placement_fields i unit item)
          (read_placement path)
          (and_then (placement_of unit item) (λ p. ok (key_of i, p)))
  unfolding read_placement
  placement-Reads i unit item hi hu hs =
      value _ (string path "definition crate" i.definition_crate hi.definition_crate) (
        value _ (string path "definition path" i.definition_path hi.definition_path) (
          value _ (string path "display name" i.display_name hi.display_name) (
            value _ (string path "raw symbol" i.raw_symbol hi.raw_symbol) (
              value _ (string path "codegen unit" unit hu) (
                value _ (string path "linkage" _ (linkage_name-IsString item.linkage)) (
                  value _ (string path "visibility" _ (visibility_name-IsString item.visibility)) (
                    value _ (flag path "local copy" item.inlined) (
                      last _ (u64 path "size estimate" item.size_estimate hs) (
                        checked _ (placement_of unit item) (λ p. lifted (ok (key_of i, p))))))))))))

  source-Reads :
      (origin : Source)
      → IsSource origin
      → Reads (source_fields origin) (read_source path) (source_of path origin)
  unfolding read_source read_source_record
  source-Reads (available span) (ha, hs, hl, hp, hline) =
      value _ (u32 path "source availability" source_available (omega arith)) (
        value _ (u64 path "source artifact" span.artifact ha) (
          value _ (u64 path "source start" span.start hs) (
            value _ (u64 path "source length" span.length hl) (
              value _ (string path "source display path" span.display_path hp) (
                last _ (u64 path "source starting line" span.starting_line hline) (
                  checked _ (range_of span)
                    (λ range. checked _ (record_of span range) (λ s. lifted _))))))))
  source-Reads (unavailable reason) (small, real) =
      last _ (u32 path "source availability" reason small) (
        subst (λ b. Reads [] (source_behind path b reason) (unavailable_of path reason))
          (sym (==-false reason real)) (lifted (unavailable_of path reason)))

  pub record-Reads :
      (c : Manifest.Configuration) (r : Record) (p : Progress)
      → IsRecord r
      → Reads (record_fields r) (read_record path c (record_kind r) p) (accept path c r p)
  unfolding read_record read_instance_placement read_source_file read_expected_module
  record-Reads c (placement concrete unit item origin) p (hi, hu, hs, ho) =
      let add = λ (fields : InstanceKey × PlacementRecord) (source : SourceAvailability).
        add_placement path fields.0 fields.1 source p in
      let more =
        λ (fields : InstanceKey × PlacementRecord). and_then (source_of path origin) (add fields) in
      subst
        (Reads (placement_fields concrete unit item ++ source_fields origin)
          (read_instance_placement path p))
        (and_then-ok (placement_of unit item) (λ q. (key_of concrete, q)) more)
        (sequence more (and_then (placement_of unit item) (λ q. ok (key_of concrete, q)))
          (placement-Reads concrete unit item hi hu hs)
          (λ fields.
            sequence_last (add fields) (source_of path origin) (source-Reads origin ho)
              (λ source. lifted _)))
  record-Reads c (source_file id byte_length) p (hi, hl) =
      value _ (u64 path "source artifact ID" id hi)
        (last _ (u64 path "source byte length" byte_length hl) (lifted _))
  record-Reads c (expected_module name file) p (hn, hf) =
      value _ (string path "compiler module" name hn)
        (last _ (string path "expected bitcode path" file hf) (lifted _))
