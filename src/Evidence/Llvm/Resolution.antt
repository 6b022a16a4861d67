-- ===== src/Evidence/Llvm/Resolution.antt =====
-- The loop that follows aliases computes the end of the chain, or reports a cycle.
use optic.Prelude.{
  ℕ, zero, suc, List, [], ◌∷◌, ◌++◌, append_assoc, append-nil, ◌≡◌, ◌↔◌, ◌⊎◌, inl, inr, sym, refl,
  ap₂, ◌∙◌, ap, subst, arith, Result, ok, err, length, contains, contains_iff_Member, Bool-cases,
  All, All-imp, All-get_elem?,
}
use optic.Prelude.Text.{Text, text_eq}
use optic.Records.InstanceRef.{InstanceRef}
use optic.Records.LlvmModuleRecord.{LlvmModuleRecord}
use optic.Evidence.{Error, alias_cycle, out_of_fuel}
use optic.Evidence.Llvm.{ModuleEvidence, follow, resolve_module, body, body_of}
use optic.Evidence.Llvm.Fuel.{
  Round, missing, at_function, at_unsupported, jump, look, follow_old, follow_new, continue_at,
  resolve_module-fuel,
}
use optic.Evidence.Llvm.Chains.{
  End, nothing, defined, opaque_alias, Leads, stop, hop, Hops, Hops-snoc, Leads-unique,
  Leads-acyclic, evidence_at,
}

Result-cases {ℓ κ} :
    {E : Type ℓ} {A : Type κ} (r : Result E A) → ((a : A) × (r ≡ ok a)) ⊎ ((e : E) × (r ≡ err e))
Result-cases (ok a) = inl (a, refl)
Result-cases (err e) = inr (e, refl)

err-inj {ℓ κ} : {E : Type ℓ} {A : Type κ} {x y : E} (r : Result E A) → r ≡ err x → r ≡ err y → x ≡ y
err-inj r h k = ground (arith, h, k)

module _ (m : LlvmModuleRecord) (reference : InstanceRef) where
  -- The answer is that of a chain from the symbol.
  abbrev pub Answers : Text → List Text → ModuleEvidence → Type 0
  Answers s before found =
      (xs : List Text) × (e : End) × Leads m.definitions s xs e
      × (found ≡ evidence_at m reference (before ++ xs) e)

module _ (m : LlvmModuleRecord) where
  -- Some symbol that is reached from `s` leads back to itself.
  abbrev pub Cyclic : Text → Text → Type 0
  Cyclic s t = (j : ℕ) × (k : ℕ) × Hops m.definitions j s t × Hops m.definitions (suc k) t t

  -- Each visited symbol leads to the current one.
  abbrev Behind : Text → Text → Type 0
  Behind s v = (k : ℕ) × Hops m.definitions (suc k) v s

module _ {F : Type 0} (m : LlvmModuleRecord) (reference : InstanceRef) where
  module _ (fuel : ℕ)
      (later : (visited before : List Text) (s : Text) (found : ModuleEvidence)
        → follow {F = F} m reference fuel visited before s ≡ ok found
        → Answers m reference s before found) where
    continue_at-Answers :
        (visited before : List Text) (s : Text) (r : Round) (found : ModuleEvidence)
        → look m.definitions s ≡ r
        → continue_at {F = F} m reference fuel visited before s r ≡ ok found
        → Answers m reference s before found
    continue_at-Answers visited before s missing found at h =
        ([], nothing, stop s nothing at, ground (arith, h))
    continue_at-Answers visited before s (at_function d) found at h = (
      [],
      defined d,
      stop s (defined d) at,
      subst (λ l. found ≡ body (body_of m reference l d)) (sym (append-nil before))
          (ground (arith, h)),
    )
    continue_at-Answers visited before s at_unsupported found at h =
        ([], opaque_alias, stop s opaque_alias at, ground (arith, h))
    continue_at-Answers visited before s (jump t) found at h =
        let (xs, e, chain, same) = later (s ∷ visited) (before ++ s ∷ []) t found h in
        (
          s ∷ xs,
          e,
          hop s t xs e at chain,
          same ∙ ap (λ l. evidence_at m reference l e) (append_assoc before (s ∷ []) xs),
        )

  follow-Answers :
      (fuel : ℕ) (visited before : List Text) (s : Text) (found : ModuleEvidence)
      → follow {F = F} m reference fuel visited before s ≡ ok found
      → Answers m reference s before found
  follow-Answers zero visited before s found h = absurd (unfold follow in cc h)
  follow-Answers (suc fuel) visited before s found h = elim (Bool-cases (contains visited s)) [
    | inl old ↦ absurd (cc (sym h ∙ follow_old m reference fuel visited before s old))
    | inr new ↦
        continue_at-Answers fuel (follow-Answers fuel) visited before s (look m.definitions s) found
          refl (sym (follow_new m reference fuel visited before s new) ∙ h)
  ]

  module _ (start : Text) (fuel : ℕ)
      (later : (visited before : List Text) (s : Text) (x : Error F)
        → All (Behind m s) visited
        → (j : ℕ) × Hops m.definitions j start s
        → follow {F = F} m reference fuel visited before s ≡ err x
        → (x ≡ out_of_fuel)
          ⊎ ((t : Text) × Cyclic m start t × (x ≡ alias_cycle reference m.compiler_module t))) where
    continue_at-Cyclic :
        (visited before : List Text) (s : Text) (r : Round) (x : Error F)
        → All (Behind m s) visited
        → (j : ℕ) × Hops m.definitions j start s
        → look m.definitions s ≡ r
        → continue_at {F = F} m reference fuel visited before s r ≡ err x
        → (x ≡ out_of_fuel)
          ⊎ ((t : Text) × Cyclic m start t × (x ≡ alias_cycle reference m.compiler_module t))
    continue_at-Cyclic visited before s missing x seen reach at h = absurd (cc h)
    continue_at-Cyclic visited before s (at_function d) x seen reach at h = absurd (cc h)
    continue_at-Cyclic visited before s at_unsupported x seen reach at h = absurd (cc h)
    continue_at-Cyclic visited before s (jump t) x seen (j, hops) at h =
        later (s ∷ visited) (before ++ s ∷ []) t x
          (
            (0, Hops-snoc m.definitions 0 s s t refl at),
            All-imp (λ v (k, v_hops). (suc k, Hops-snoc m.definitions (suc k) v s t v_hops at))
                visited seen,
          )
          (suc j, Hops-snoc m.definitions j start s t hops at) h

  follow-Cyclic :
      (start : Text) (fuel : ℕ) (visited before : List Text) (s : Text) (x : Error F)
      → All (Behind m s) visited
      → (j : ℕ) × Hops m.definitions j start s
      → follow {F = F} m reference fuel visited before s ≡ err x
      → (x ≡ out_of_fuel)
        ⊎ ((t : Text) × Cyclic m start t × (x ≡ alias_cycle reference m.compiler_module t))
  follow-Cyclic start zero visited before s x seen reach h =
      inl (unfold follow in ground (arith, h))
  follow-Cyclic start (suc fuel) visited before s x seen (j, hops) h =
      elim (Bool-cases (contains visited s)) [
        | inl old ↦
            let (i, at) = (contains_iff_Member visited s).0 old in
            let failed : follow {F = F} m reference (suc fuel) visited before s
                ≡ err (alias_cycle reference m.compiler_module s) =
              follow_old m reference fuel visited before s old in
            let (k, loop) = All-get_elem? (Behind m s) visited i seen at in
            inr (
              s,
              (j, k, hops, loop),
              err-inj (follow m reference (suc fuel) visited before s) h failed,
            )
        | inr new ↦
            continue_at-Cyclic start fuel (follow-Cyclic start fuel) visited before s
              (look m.definitions s) x seen (j, hops) refl
              (sym (follow_new m reference fuel visited before s new) ∙ h)
      ]

  -- Following aliases fails only on a cycle that the symbol leads into, and the error names a
  -- symbol on it.
  pub resolve_module-error :
      (raw_symbol : Text) (x : Error F)
      → resolve_module m reference raw_symbol ≡ err x
      → (t : Text) × Cyclic m raw_symbol t × (x ≡ alias_cycle reference m.compiler_module t)
  unfolding resolve_module
  resolve_module-error raw_symbol x h =
      elim (follow-Cyclic raw_symbol (suc (length m.definitions)) [] [] raw_symbol x tt (0, refl)
        h) [
          | inl fuel ↦ absurd (resolve_module-fuel m reference raw_symbol (h ∙ ap err fuel))
          | inr cycle ↦ cycle
        ]

  -- What following a raw symbol's aliases in a module answers is the end of the chain that the
  -- symbol starts there, with the aliases in order; and every chain that ends is answered so.
  pub resolve_module_iff :
      (raw_symbol : Text) (found : ModuleEvidence)
      → (resolve_module {F = F} m reference raw_symbol ≡ ok found)
        ↔ Answers m reference raw_symbol [] found
  unfolding resolve_module
  resolve_module_iff raw_symbol found = (
    follow-Answers (suc (length m.definitions)) [] [] raw_symbol found,
    λ (xs, e, chain, same). elim (Result-cases (resolve_module {F = F} m reference raw_symbol)) [
      | inl (other, answered) ↦
          let (ys, f, again, same') =
            follow-Answers (suc (length m.definitions)) [] [] raw_symbol other answered in
          let (lists, ends) = Leads-unique m.definitions raw_symbol xs ys e f chain again in
          answered ∙ ap ok (same' ∙ sym (ap₂ (evidence_at m reference) lists ends) ∙ sym same)
      | inr (x, failed) ↦ absurd (
          let (t, (j, k, reach, loop), _) = resolve_module-error raw_symbol x failed in
          Leads-acyclic m.definitions j k raw_symbol t xs e chain reach loop)
    ],
  )
