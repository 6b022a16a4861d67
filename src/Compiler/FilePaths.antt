-- ===== src/Compiler/FilePaths.antt =====
-- What the decoder of the manifest uses of `std::path` on Unix: a path is compared, and taken apart,
-- by its components.
use optic.Prelude.{
  ◌≡◌, arith, Option, none, some, List, [], ◌∷◌, Eq, key_eq, list_beq, list_beq_iff, nat_eq,
}
use optic.Prelude.Text.{Text}
use optic.Records.Validation.{Component, root_dir, cur_dir, parent_dir, normal}

abbrev pub component_key : Component → Text
component_key root_dir = 0 ∷ []
component_key cur_dir = 1 ∷ []
component_key parent_dir = 2 ∷ []
component_key (normal name) = 3 ∷ name

pub component_key-injective : (a b : Component) → component_key a ≡ component_key b → a ≡ b
component_key-injective root_dir b h = ground arith
component_key-injective cur_dir b h = ground arith
component_key-injective parent_dir b h = ground arith
component_key-injective (normal name) b h = ground arith

instance abbrev pub component_eq : Eq Component
component_eq =
    key_eq component_key component_key-injective (record { beq = list_beq; beq_iff = list_beq_iff })

instance abbrev pub components_eq : Eq (List Component)
components_eq = record { beq = list_beq; beq_iff = list_beq_iff }

abbrev all_but_last : Component → List Component → List Component
all_but_last c [] = []
all_but_last c (d ∷ ds) = c ∷ all_but_last d ds

abbrev last_of : Component → List Component → Component
last_of c [] = c
last_of c (d ∷ ds) = last_of d ds

-- `Path::parent`
abbrev pub parent : List Component → Option (List Component)
parent [] = none
parent (root_dir ∷ []) = none
parent (c ∷ cs) = some (all_but_last c cs)

-- `Path::file_name`
abbrev pub file_name_of : Component → Option Text
file_name_of (normal name) = some name
file_name_of _ = none

abbrev pub file_name : List Component → Option Text
file_name [] = none
file_name (c ∷ cs) = file_name_of (last_of c cs)
