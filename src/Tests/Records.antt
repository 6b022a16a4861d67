-- ===== src/Tests/Records.antt =====
-- Records on concrete data.
use optic.Prelude.{ℕ, true, List, [], ◌∷◌, length, ◌≡◌, ◌↔◌, refl, arith, ok, All, Passes, Distinct}
use optic.Prelude.Text.{Text, codes, is_ascii_digit, starts_with, split_once}
use optic.Records.AnalysisToken
use optic.Records.AnalysisToken.{AnalysisToken}
use optic.Records.AnalysisToken.Laws.{IsUuid, parse_token_iff}
use optic.Records.Artifact.{ArtifactKind, ArtifactRecord, file_name}
use optic.Records.Artifact.Names.{file_name-injective}
use optic.Records.CaptureId
use optic.Records.CaptureId.{CaptureId, generate}
use optic.Records.CaptureId.Laws.{parse_iff}
use optic.Records.Collection.{validate_llvm}
use optic.Records.Collection.Valid.{artifact_ids}
use optic.Records.Collection.Consistent.{IsCollection, validate_llvm_iff}
use optic.Records.Decimal
use optic.Records.InstanceManifest
use optic.Records.InstanceManifest.{InstanceManifest}
use optic.Records.InstanceManifest.Valid.{IsManifest, assembled, raw_of, new_iff, try_from_iff}
use optic.Records.InstanceRef
use optic.Records.InstanceRef.{InstanceRef}
use optic.Records.InstanceRef.RoundTrip.{IsValid, parse-display, display-parse}
use optic.Records.ReverseHex.{encode, is_canonical}
use optic.Records.ReverseHex.Bijection.{IsByte, is_canonical_iff}
use optic.Records.Validation.{require_absolute_normalized_path}
use optic.Records.Validation.Normalized.{IsName, rendered, require_absolute_normalized_path_iff}
use optic.Tests.Data.{
  capture, run, walk, artifacts, provenance, llvm, manifest, manifest_valid, run_reference,
}

new_iff_example :
    (InstanceManifest.new capture (walk ∷ run ∷ []) artifacts provenance llvm ≡ ok manifest) ↔ (
      (manifest ≡ assembled capture (walk ∷ run ∷ []) artifacts provenance llvm)
      × IsManifest (assembled capture (walk ∷ run ∷ []) artifacts provenance llvm))
new_iff_example = new_iff capture (walk ∷ run ∷ []) artifacts provenance llvm manifest

try_from_iff_example :
    (InstanceManifest.try_from (raw_of manifest) ≡ ok manifest)
    ↔ ((raw_of manifest ≡ raw_of manifest) × IsManifest manifest)
try_from_iff_example = try_from_iff (raw_of manifest) manifest

artifacts-Distinct : Distinct (artifact_ids artifacts)
artifacts-Distinct = manifest_valid.distinct_artifacts

validate_llvm_iff_example :
    Passes (validate_llvm (walk ∷ run ∷ []) artifacts provenance llvm)
    ↔ IsCollection (walk ∷ run ∷ []) artifacts provenance llvm
validate_llvm_iff_example =
    validate_llvm_iff (walk ∷ run ∷ []) artifacts provenance llvm artifacts-Distinct

capture_canonical : (length capture.text ≡ 32) × (is_canonical capture.text ≡ true)
unfolding is_canonical
capture_canonical = (refl, refl)

run_reference-IsValid : IsValid run_reference
run_reference-IsValid = record { canonical = capture_canonical; fits = omega arith }

parse-display_example : InstanceRef.parse (InstanceRef.display run_reference) ≡ ok run_reference
parse-display_example = parse-display run_reference run_reference-IsValid

run_text : InstanceRef.parse (codes "kkkkkkkkkkkkkkkkzzzzzzzzzzzzzzzz:1") ≡ ok run_reference
unfolding InstanceRef.parse InstanceRef.is_malformed CaptureId.parse Decimal.parse
    Decimal.parse_onto is_canonical split_once is_ascii_digit starts_with
run_text = refl

display-parse_example :
    (InstanceRef.display run_reference ≡ codes "kkkkkkkkkkkkkkkkzzzzzzzzzzzzzzzz:1")
    × IsValid run_reference
display-parse_example =
    display-parse (codes "kkkkkkkkkkkkkkkkzzzzzzzzzzzzzzzz:1") run_reference run_text

require_absolute_normalized_path_iff_example :
    Passes (require_absolute_normalized_path "package root" (codes "/src/optic"))
    ↔ ((names : List Text) × All IsName names × (codes "/src/optic" ≡ rendered names))
require_absolute_normalized_path_iff_example =
    require_absolute_normalized_path_iff "package root" (codes "/src/optic")

parse_iff_example : (CaptureId.parse capture.text ≡ ok capture) ↔ (
    (uuid : List ℕ) × (length uuid ≡ 16)
    × All IsByte uuid
    × (capture ≡ generate uuid)
    × (capture.text ≡ capture.text))
parse_iff_example = parse_iff capture.text capture

abbrev token : AnalysisToken
token = record { text = codes "0123456789ab4def8123456789abcdef" }

parse_token_iff_example :
    (AnalysisToken.parse token.text ≡ ok token) ↔ ((token.text ≡ token.text) × IsUuid token.text)
parse_token_iff_example = parse_token_iff token.text token

abbrev first : ArtifactRecord
first = record { id = record { value = 0 }; kind = ArtifactKind.source; byte_len = 10 }

abbrev first_again : ArtifactRecord
first_again = record { id = record { value = 0 }; kind = ArtifactKind.llvm; byte_len = 20 }

same_name : file_name first ≡ file_name first_again
unfolding file_name
same_name = refl

file_name-injective_example : first.id ≡ first_again.id
file_name-injective_example =
    file_name-injective first first_again (omega arith) (omega arith) same_name

is_canonical_iff_example :
    (is_canonical (codes "zk") ≡ true)
    ↔ ((bytes : List ℕ) × All IsByte bytes × (codes "zk" ≡ encode bytes))
is_canonical_iff_example = is_canonical_iff (codes "zk")
