-- ===== src/Evidence/Llvm/Answers.antt =====
-- When a query for LLVM bodies succeeds, and what it answers.
use optic.Prelude.{
  Bool, false, List, [], ◌∷◌, ◌≡◌, ◌↔◌, sym, refl, ap₂, ◌∙◌, ap, subst, arith, ok-inj, ok, ◌>>=◌,
  >>=-ok, All, All-imp,
}
use optic.Prelude.Text.{Text}
use optic.Records.InstanceRef.{InstanceRef}
use optic.Records.LlvmModuleRecord.{LlvmModuleRecord, collected}
use optic.Evidence.Llvm.{
  LlvmBody, LlvmEvidence, no_exact_definition, ModuleEvidence, resolve_module, conclude,
  select_bodies, body, absent, unsupported,
}
use optic.Evidence.Llvm.Chains.{End, nothing, defined, opaque_alias, Leads, evidence_at}
use optic.Evidence.Llvm.Resolution.{resolve_module_iff}
use optic.Evidence.Llvm.Bodies.{bodies_of, some_unsupported, Resolves, go, go_sound, go_complete}

nothing_of_absent :
    (r : InstanceRef) (m : LlvmModuleRecord) (xs : List Text) (e : End)
    → absent ≡ evidence_at m r xs e
    → e ≡ nothing
nothing_of_absent r m xs nothing h = refl
nothing_of_absent r m xs (defined d) h = absurd (cc h)
nothing_of_absent r m xs opaque_alias h = absurd (cc h)

module _ (raw_symbol : Text) where
  -- The chain from the symbol ends in the module.
  abbrev pub Ends : LlvmModuleRecord → Type 0
  Ends m = (xs : List Text) × (e : End) × Leads m.definitions raw_symbol xs e

  -- The symbol names nothing in the module, directly or through aliases.
  abbrev pub Undefined : LlvmModuleRecord → Type 0
  Undefined m = (xs : List Text) × Leads m.definitions raw_symbol xs nothing

module _ (F : Type 0) (raw_symbol : Text) (reference : InstanceRef) where
  Ends-of_Resolves :
      (ms : List LlvmModuleRecord) (es : List ModuleEvidence)
      → Resolves F raw_symbol reference ms es
      → All (Ends raw_symbol) ms
  Ends-of_Resolves [] es h = tt
  Ends-of_Resolves (m ∷ ms) [] h = absurd h
  Ends-of_Resolves (m ∷ ms) (x ∷ es) (first, rest) =
      let (xs, e, chain, _) = (resolve_module_iff {F = F} m reference raw_symbol x).0 first in
      ((xs, e, chain), Ends-of_Resolves ms es rest)

  Resolves-of_Ends :
      (ms : List LlvmModuleRecord)
      → All (Ends raw_symbol) ms
      → (es : List ModuleEvidence) × Resolves F raw_symbol reference ms es
  Resolves-of_Ends [] h = ([], tt)
  Resolves-of_Ends (m ∷ ms) ((xs, e, chain), rest) =
      let (es, later) = Resolves-of_Ends ms rest in
      let found = evidence_at m reference xs e in
      (
        found ∷ es,
        ((resolve_module_iff {F = F} m reference raw_symbol found).1 (xs, e, chain, refl), later),
      )

  pub select_parts :
      (ms : List LlvmModuleRecord) (e : LlvmEvidence)
      → (select_bodies {F = F} (collected ms) raw_symbol reference ≡ ok e) ↔ (
          (es : List ModuleEvidence) × Resolves F raw_symbol reference ms es
          × (e ≡ conclude (bodies_of es) (some_unsupported es)))
  unfolding select_bodies
  select_parts ms e = (
    λ h.
        let ((bs, f), looped, same) = >>=-ok (go F raw_symbol reference ms [] false) _ h in
        let (es, rs, bodies, flags) = go_sound F raw_symbol reference ms [] false bs f looped in
        (es, rs, ok-inj (ok (conclude bs f)) same refl ∙ ap₂ conclude bodies flags),
    λ (es, rs, same).
        ap (λ r. r >>= λ x. ok (conclude x.0 x.1))
          (go_complete F raw_symbol reference ms es [] false rs)
        ∙ ap ok (sym same),
  )

  -- A query over collected modules succeeds exactly if in every module the chain of direct aliases
  -- from the symbol ends.
  pub select_bodies-succeeds :
      (ms : List LlvmModuleRecord)
      → ((e : LlvmEvidence) × (select_bodies {F = F} (collected ms) raw_symbol reference ≡ ok e))
        ↔ All (Ends raw_symbol) ms
  select_bodies-succeeds ms = (
    λ (e, h). let (es, rs, _) = (select_parts ms e).0 h in Ends-of_Resolves ms es rs,
    λ ends.
        let (es, rs) = Resolves-of_Ends ms ends in
        let e = conclude (bodies_of es) (some_unsupported es) in
        (e, (select_parts ms e).1 (es, rs, refl)),
  )

  undefined :
      (m : LlvmModuleRecord)
      → resolve_module {F = F} m reference raw_symbol ≡ ok absent
      → Undefined raw_symbol m
  undefined m h =
      let (xs, e, chain, same) = (resolve_module_iff {F = F} m reference raw_symbol absent).0 h in
      (
        xs,
        subst (Leads m.definitions raw_symbol xs) (nothing_of_absent reference m xs e same) chain,
      )

  absent_iff :
      (ms : List LlvmModuleRecord) (es : List ModuleEvidence)
      → Resolves F raw_symbol reference ms es
      → ((bodies_of es ≡ []) × (some_unsupported es ≡ false)) ↔ All (Undefined raw_symbol) ms
  absent_iff [] [] rs = (λ _. tt, λ _. (refl, refl))
  absent_iff [] (x ∷ es) rs = absurd rs
  absent_iff (m ∷ ms) [] rs = absurd rs
  absent_iff (m ∷ ms) (body b ∷ es) (first, rest) = (
    λ (h, _). absurd (cc h),
    λ ((xs, chain), _).
        let found =
          (resolve_module_iff {F = F} m reference raw_symbol absent).1 (xs, nothing, chain, refl) in
        absurd (cc (ok-inj (resolve_module {F = F} m reference raw_symbol) first found)),
  )
  absent_iff (m ∷ ms) (unsupported ∷ es) (first, rest) = (
    λ (_, h). absurd (cc h),
    λ ((xs, chain), _).
        let found =
          (resolve_module_iff {F = F} m reference raw_symbol absent).1 (xs, nothing, chain, refl) in
        absurd (cc (ok-inj (resolve_module {F = F} m reference raw_symbol) first found)),
  )
  absent_iff (m ∷ ms) (absent ∷ es) (first, rest) =
      let (there, back) = absent_iff ms es rest in
      (λ h. (undefined m first, there h), λ (_, later). back later)

  conclude_iff :
      (bs : List LlvmBody) (f : Bool)
      → (no_exact_definition ≡ conclude bs f) ↔ ((bs ≡ []) × (f ≡ false))
  conclude_iff [] f = ground arith
  conclude_iff (b ∷ bs) f = ground arith

  -- A query over collected modules answers that there is no exact definition exactly if the symbol
  -- names nothing in any module, directly or through direct aliases.
  pub select_bodies-Undefined :
      (ms : List LlvmModuleRecord)
      → (select_bodies {F = F} (collected ms) raw_symbol reference ≡ ok no_exact_definition)
        ↔ All (Undefined raw_symbol) ms
  select_bodies-Undefined ms = (
    λ h.
        let (es, rs, same) = (select_parts ms no_exact_definition).0 h in
        (absent_iff ms es rs).0 ((conclude_iff (bodies_of es) (some_unsupported es)).0 same),
    λ all_undefined.
        let ends = All-imp (λ m (xs, chain). (xs, nothing, chain)) ms all_undefined in
        let (es, rs) = Resolves-of_Ends ms ends in
        (select_parts ms no_exact_definition).1 (
          es,
          rs,
          (conclude_iff (bodies_of es) (some_unsupported es)).1
              ((absent_iff ms es rs).1 all_undefined),
        ),
  )
