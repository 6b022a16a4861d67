-- ===== src/Evidence/Llvm.antt =====
-- crates/cargo-optic-evidence/src/llvm.rs
pub mod Fuel
pub mod Chains
pub mod Resolution
pub mod Bodies
pub mod Answers
pub mod Bounds
use Prim.Native.Nat.{Ordering, compare}
use optic.Prelude.{
  ℕ, zero, suc, Bool, true, false, Option, none, some, List, [], ◌∷◌, ◌++◌, Result, ok, err, ◌>>=◌,
  map_err, length, is_empty, contains, if◌then◌else◌,
}
use optic.Prelude.Sorting.{cmp, then_with, sort_by}
use optic.Prelude.Text.{Text, text_eq, text_beq}
use optic.Records.InstanceManifest.{InstanceManifest}
use optic.Records.InstanceRecord.{InstanceRecord}
use optic.Records.InstanceRef.{InstanceRef}
use optic.Records.LlvmDefinitionRecord.{
  LlvmDefinitionRecord, LlvmDefinitionKind, function, direct_alias, expression_alias, ifunc,
}
use optic.Records.LlvmModuleRecord.{
  LlvmStage, LlvmModuleRecord, LlvmCollection, collected, UnsupportedLlvmConfiguration,
}
use optic.Evidence.{
  Error, alias_cycle, out_of_fuel, Store, store, EvidenceRange, referenced_instance,
}

pub record LlvmBody : Type 0 where
  pub evidence : EvidenceRange
  pub compiler_module : Text
  pub stage : LlvmStage
  pub raw_symbol : Text
  pub aliases : List Text

pub data LlvmEvidence : Type 0 where
  available : List LlvmBody → LlvmEvidence
  not_captured : UnsupportedLlvmConfiguration → LlvmEvidence
  no_exact_definition unsupported_alias : LlvmEvidence

pub data ModuleEvidence : Type 0 where
  body : LlvmBody → ModuleEvidence
  absent unsupported : ModuleEvidence

-- The `HashMap` collected from the definitions: a later entry replaces an earlier one.
unfoldable pub get : List LlvmDefinitionRecord → Text → Option LlvmDefinitionRecord
get [] symbol = none
get (d ∷ rest) symbol = elim (get rest symbol) [
  | some found ↦ some found
  | none ↦ if text_beq d.raw_symbol symbol then some d else none
]

abbrev pub body_of : LlvmModuleRecord → InstanceRef → List Text → LlvmDefinitionRecord → LlvmBody
body_of m reference aliases d = record {
  evidence = record { capture_id = reference.capture_id; artifact = m.artifact; range = d.range };
  compiler_module = m.compiler_module;
  stage = m.stage;
  raw_symbol = d.raw_symbol;
  aliases = aliases;
}

module _ {F : Type 0} (m : LlvmModuleRecord) (reference : InstanceRef) where
  -- The loop, with the symbols visited and the aliases pushed so far; its fuel bounds the rounds.
  unfoldable pub follow : ℕ → List Text → List Text → Text → Result (Error F) ModuleEvidence
  unfolding contains get
  follow zero visited aliases symbol = err out_of_fuel
  follow (suc fuel) visited aliases symbol = elim (contains visited symbol) [
    | true ↦ err (alias_cycle reference m.compiler_module symbol)
    | false ↦ elim (get m.definitions symbol) [
      | none ↦ ok absent
      | some d ↦ elim d.kind [
        | function ↦ ok (body (body_of m reference aliases d))
        | direct_alias target ↦ follow fuel (symbol ∷ visited) (aliases ++ symbol ∷ []) target
        | expression_alias ↦ ok unsupported
        | ifunc ↦ ok unsupported
      ]
    ]
  ]

  unfoldable pub resolve_module : Text → Result (Error F) ModuleEvidence
  unfolding follow
  resolve_module raw_symbol = follow (suc (length m.definitions)) [] [] raw_symbol

-- The loop over the modules: the bodies, and whether some alias was unsupported.
unfoldable pub resolve_modules :
    {F : Type 0}
    → List LlvmModuleRecord
    → Text
    → InstanceRef
    → List LlvmBody
    → Bool
    → Result (Error F) (List LlvmBody × Bool)
resolve_modules [] raw_symbol reference bodies flag = ok (bodies, flag)
resolve_modules (m ∷ rest) raw_symbol reference bodies flag = do
  resolved ← resolve_module m reference raw_symbol
  elim resolved [
    | body b ↦ resolve_modules rest raw_symbol reference (bodies ++ b ∷ []) flag
    | absent ↦ resolve_modules rest raw_symbol reference bodies flag
    | unsupported ↦ resolve_modules rest raw_symbol reference bodies true
  ]

-- The comparison of the sort.
abbrev pub order : LlvmBody → LlvmBody → Ordering
order left right =
    then_with
      (then_with (cmp left.compiler_module right.compiler_module)
        (compare left.evidence.range.start right.evidence.range.start))
      (compare left.evidence.range.length right.evidence.range.length)

abbrev pub conclude : List LlvmBody → Bool → LlvmEvidence
conclude bodies flag =
    if is_empty bodies
    then (if flag then unsupported_alias else no_exact_definition)
    else available (sort_by order bodies)

unfoldable pub select_bodies :
    {F : Type 0} → LlvmCollection → Text → InstanceRef → Result (Error F) LlvmEvidence
unfolding sort_by resolve_modules cmp
select_bodies (LlvmCollection.not_captured reason) raw_symbol reference = ok (not_captured reason)
select_bodies (collected modules) raw_symbol reference = do
  (bodies, flag) ← resolve_modules modules raw_symbol reference [] false
  ok (conclude bodies flag)

unfoldable pub llvm_evidence : {F : Type 0} → Store F → InstanceRef → Result (Error F) LlvmEvidence
unfolding select_bodies referenced_instance
llvm_evidence s reference = do
  manifest ← map_err store (s.read_instances reference.capture_id)
  instance_ ← referenced_instance manifest reference
  select_bodies manifest.llvm instance_.raw_symbol reference
