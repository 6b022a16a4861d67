-- ===== src/Records/InstanceRecord.antt =====
-- crates/cargo-optic-records/src/instance_record.rs
use optic.Prelude.{none, some, List, not, ok, err, ◌>>◌, ensure, is_empty, first_duplicate, map}
use optic.Prelude.Text.{Text, text_eq}
use optic.Records.Error.{Checked, invalid_field, empty_list, duplicate_codegen_unit}
use optic.Records.Validation.{require_text}
use optic.Prelude.{[]}
use optic.Records.DefinitionRecord.{DefinitionRecord}
use optic.Records.PlacementRecord.{PlacementRecord}
use optic.Records.SourceRecord.{SourceAvailability}

-- The loop that inserts each codegen unit into a `HashSet`.
abbrev pub require_distinct_units : List PlacementRecord → Checked (Unit {0})
require_distinct_units xs =
    elim (first_duplicate [] (map (λ (x : PlacementRecord). x.codegen_unit) xs)) [
      | none ↦ ok tt
      | some again ↦ err (invalid_field "instance placements" (duplicate_codegen_unit again))
    ]

pub record InstanceRecord : Type 0 where
  pub definition : DefinitionRecord
  pub display_name : Text
  pub raw_symbol : Text
  pub placements : List PlacementRecord
  pub source : SourceAvailability

unfoldable pub new :
    DefinitionRecord
    → Text
    → Text
    → List PlacementRecord
    → SourceAvailability
    → Checked InstanceRecord
new definition display_name raw_symbol placements source = do
  require_text "instance display name" display_name
  require_text "instance raw symbol" raw_symbol
  ensure (not (is_empty placements)) (invalid_field "instance placements" empty_list)
  require_distinct_units placements
  ok (record {
    definition = definition;
    display_name = display_name;
    raw_symbol = raw_symbol;
    placements = placements;
    source = source;
  })

pub record RawInstanceRecord : Type 0 where
  pub definition : DefinitionRecord
  pub display_name : Text
  pub raw_symbol : Text
  pub placements : List PlacementRecord
  pub source : SourceAvailability

unfoldable pub try_from : RawInstanceRecord → Checked InstanceRecord
unfolding new
try_from raw = new raw.definition raw.display_name raw.raw_symbol raw.placements raw.source
