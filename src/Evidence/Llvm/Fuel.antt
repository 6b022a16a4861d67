-- ===== src/Evidence/Llvm/Fuel.antt =====
-- The loop that follows aliases ends within one round more than the module has definitions.
use optic.Prelude.{
  ℕ, zero, suc, ◌≤◌, ◌<◌, true, false, Option, none, some, List, [], ◌∷◌, ◌++◌, ◌≡◌, ◌≢◌, inl, inr,
  sym, refl, ◌∙◌, ap, arith, Result, ok, err, length, contains, if◌then◌else◌, Bool-cases,
  Option-cases,
}
use optic.Prelude.Text.{Text, text_eq, text_beq_iff}
use optic.Records.InstanceRef.{InstanceRef}
use optic.Records.LlvmDefinitionRecord.{
  LlvmDefinitionRecord, function, direct_alias, expression_alias, ifunc,
}
use optic.Records.LlvmModuleRecord.{LlvmModuleRecord}
use optic.Evidence.{Error, alias_cycle, out_of_fuel}
use optic.Evidence.Llvm.{
  ModuleEvidence, get, follow, resolve_module, body, body_of, absent, unsupported,
}

-- How a round of the loop ends.
pub data Round : Type 0 where
  missing : Round
  at_function : LlvmDefinitionRecord → Round
  at_unsupported : Round
  jump : Text → Round

abbrev pub round_of : Option LlvmDefinitionRecord → Round
round_of none = missing
round_of (some d) = elim d.kind [
  | function ↦ at_function d
  | direct_alias target ↦ jump target
  | expression_alias ↦ at_unsupported
  | ifunc ↦ at_unsupported
]

-- What the symbol names in the module.
unfoldable pub look : List LlvmDefinitionRecord → Text → Round
unfolding get
look ds symbol = round_of (get ds symbol)

-- The definitions whose symbols are not visited yet.
abbrev unvisited : List Text → List LlvmDefinitionRecord → ℕ
unvisited visited [] = 0
unvisited visited (d ∷ ds) =
    let n = unvisited visited ds in if contains visited d.raw_symbol then n else suc n

unvisited-nil : (ds : List LlvmDefinitionRecord) → unvisited [] ds ≡ length ds
unfolding contains
unvisited-nil [] = ground arith
unvisited-nil (d ∷ ds) = ground (arith, unvisited-nil ds)

unvisited-cons-le :
    (s : Text) (visited : List Text) (ds : List LlvmDefinitionRecord)
    → unvisited (s ∷ visited) ds ≤ unvisited visited ds
unfolding contains
unvisited-cons-le s visited [] = ground arith
unvisited-cons-le s visited (d ∷ ds) = ground (arith, unvisited-cons-le s visited ds)

unvisited-cons-lt :
    (s : Text) (visited : List Text) (ds : List LlvmDefinitionRecord) (d : LlvmDefinitionRecord)
    → contains visited s ≡ false
    → get ds s ≡ some d
    → unvisited (s ∷ visited) ds < unvisited visited ds
unfolding contains get
unvisited-cons-lt s visited [] d new found = absurd (cc found)
unvisited-cons-lt s visited (x ∷ ds) d new found = elim (Option-cases (get ds s)) [
  | inr (later, at) ↦
      ground (arith, unvisited-cons-lt s visited ds later new at, unvisited-cons-le s visited ds)
  | inl last ↦
      let same : x.raw_symbol ≡ s = (text_beq_iff x.raw_symbol s).0 (ground arith) in
      let unseen : contains visited x.raw_symbol ≡ false = ap (contains visited) same ∙ new in
      ground
        (arith, unseen, (text_beq_iff s x.raw_symbol).1 (sym same), unvisited-cons-le s visited ds)
]

look-jump :
    (ds : List LlvmDefinitionRecord) (s target : Text)
    → look ds s ≡ jump target
    → (d : LlvmDefinitionRecord) × (get ds s ≡ some d)
unfolding look
look-jump ds s target h = elim (Option-cases (get ds s)) [
  | inl none_there ↦ absurd (ground arith)
  | inr there ↦ there
]

module _ {F : Type 0} (m : LlvmModuleRecord) (reference : InstanceRef) where
  module _ (fuel : ℕ) (visited aliases : List Text) (s : Text) where
    pub follow_old :
        contains visited s ≡ true
        → follow {F = F} m reference (suc fuel) visited aliases s
          ≡ err (alias_cycle reference m.compiler_module s)
    unfolding follow
    follow_old old = ground arith

    -- A round at a symbol that was not visited.
    abbrev pub continue_at : Round → Result (Error F) ModuleEvidence
    continue_at missing = ok absent
    continue_at (at_function d) = ok (body (body_of m reference aliases d))
    continue_at at_unsupported = ok unsupported
    continue_at (jump target) = follow m reference fuel (s ∷ visited) (aliases ++ s ∷ []) target

    pub follow_new :
        contains visited s ≡ false
        → follow {F = F} m reference (suc fuel) visited aliases s
          ≡ continue_at (look m.definitions s)
    unfolding follow look
    follow_new new = ground arith

  module _ (fuel : ℕ)
      (rest : (visited aliases : List Text) (s : Text)
        → unvisited visited m.definitions < fuel
        → follow {F = F} m reference fuel visited aliases s ≢ err out_of_fuel) where
    continue_at-fuel :
        (visited aliases : List Text) (s : Text) (r : Round)
        → contains visited s ≡ false
        → look m.definitions s ≡ r
        → unvisited visited m.definitions < suc fuel
        → continue_at fuel visited aliases s r ≢ err out_of_fuel
    continue_at-fuel visited aliases s missing new at h = λ e. cc e
    continue_at-fuel visited aliases s (at_function d) new at h = λ e. cc e
    continue_at-fuel visited aliases s at_unsupported new at h = λ e. cc e
    continue_at-fuel visited aliases s (jump target) new at h =
        let (d, found) = look-jump m.definitions s target at in
        rest (s ∷ visited) (aliases ++ s ∷ []) target
          (omega (arith, h, unvisited-cons-lt s visited m.definitions d new found))

  follow-fuel :
      (fuel : ℕ) (visited aliases : List Text) (s : Text)
      → unvisited visited m.definitions < fuel
      → follow {F = F} m reference fuel visited aliases s ≢ err out_of_fuel
  follow-fuel zero visited aliases s h = absurd (omega (arith, h))
  follow-fuel (suc fuel) visited aliases s h = elim (Bool-cases (contains visited s)) [
    | inl old ↦ λ e. cc (sym (follow_old fuel visited aliases s old) ∙ e)
    | inr new ↦ λ e.
        continue_at-fuel fuel (follow-fuel fuel) visited aliases s (look m.definitions s) new refl h
          (sym (follow_new fuel visited aliases s new) ∙ e)
  ]

  -- The fuel suffices: following aliases in a module ends with a body, without a definition, at an
  -- unsupported alias, or with the error of a cycle.
  pub resolve_module-fuel :
      (raw_symbol : Text) → resolve_module {F = F} m reference raw_symbol ≢ err out_of_fuel
  unfolding resolve_module
  resolve_module-fuel raw_symbol =
      follow-fuel (suc (length m.definitions)) [] [] raw_symbol
        (omega (arith, unvisited-nil m.definitions))
