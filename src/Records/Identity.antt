-- ===== src/Records/Identity.antt =====
-- crates/cargo-optic-records/src/instance_manifest.rs: what tells instances apart.
use optic.Prelude.{List, [], ◌∷◌, ◌≡◌, Eq, key_eq, list_beq, list_beq_iff}
use optic.Prelude.Text.{Text, text_eq}
use optic.Records.DefinitionRecord.{DefinitionRecord}
use optic.Records.InstanceRecord.{InstanceRecord}

-- The tuple by which the constructor tells instances apart.
pub record Identity : Type 0 where
  pub definition : DefinitionRecord
  pub display_name : Text
  pub raw_symbol : Text

abbrev pub identity : InstanceRecord → Identity
identity i = record {
  definition = i.definition;
  display_name = i.display_name;
  raw_symbol = i.raw_symbol;
}

abbrev pub identity_key : Identity → List Text
identity_key i =
    i.definition.crate_name ∷ i.definition.definition_path ∷ i.display_name ∷ i.raw_symbol ∷ []

pub identity_key-injective : (a b : Identity) → identity_key a ≡ identity_key b → a ≡ b
identity_key-injective a b p =
    let crate : a.definition.crate_name ≡ b.definition.crate_name = cc p in
    let path : a.definition.definition_path ≡ b.definition.definition_path = cc p in
    let name : a.display_name ≡ b.display_name = cc p in
    let symbol : a.raw_symbol ≡ b.raw_symbol = cc p in
    λ i. record {
      definition = record { crate_name = crate i; definition_path = path i };
      display_name = name i;
      raw_symbol = symbol i;
    }

instance abbrev pub list_text_eq : Eq (List Text)
list_text_eq = record { beq = list_beq; beq_iff = list_beq_iff }

instance abbrev pub identity_eq : Eq Identity
identity_eq = key_eq identity_key identity_key-injective list_text_eq
