-- ===== src/Evidence/Llvm/Chains.antt =====
-- The chain of direct aliases that a symbol starts, and what the loop makes of it.
use optic.Prelude.{
  ℕ, zero, suc, ◌+◌, List, [], ◌∷◌, ◌≡◌, ◌≢◌, sym, refl, ◌∙◌, ap, subst, arith, length,
}
use optic.Prelude.Text.{Text, text_eq}
use optic.Records.InstanceRef.{InstanceRef}
use optic.Records.LlvmDefinitionRecord.{LlvmDefinitionRecord}
use optic.Records.LlvmModuleRecord.{LlvmModuleRecord}
use optic.Evidence.Llvm.{ModuleEvidence, body, body_of, absent, unsupported}
use optic.Evidence.Llvm.Fuel.{Round, missing, at_function, at_unsupported, jump, look}

-- Where a chain ends: no definition, a function, or an alias that is not followed.
pub data End : Type 0 where
  nothing : End
  defined : LlvmDefinitionRecord → End
  opaque_alias : End

abbrev pub final : End → Round
final nothing = missing
final (defined d) = at_function d
final opaque_alias = at_unsupported

module _ (ds : List LlvmDefinitionRecord) where
  -- From the symbol, these aliases are followed in this order, up to the end.
  pub data Leads : Text → List Text → End → Type 0 where
    stop : (s : Text) (e : End) → look ds s ≡ final e → Leads s [] e
    hop :
        (s t : Text) (aliases : List Text) (e : End)
        → look ds s ≡ jump t
        → Leads t aliases e
        → Leads s (s ∷ aliases) e

  -- `k` aliases lead from one symbol to the other.
  abbrev pub Hops : ℕ → Text → Text → Type 0
  Hops zero s t = s ≡ t
  Hops (suc k) s t = (u : Text) × (look ds s ≡ jump u) × Hops k u t

  pub Hops-snoc : (k : ℕ) (s t u : Text) → Hops k s t → look ds t ≡ jump u → Hops (suc k) s u
  Hops-snoc zero s t u same at = (u, ap (look ds) same ∙ at, refl)
  Hops-snoc (suc k) s t u (v, first, rest) at = (v, first, Hops-snoc k v t u rest at)

  jump-inj : (t u : Text) (r : Round) → r ≡ jump t → r ≡ jump u → t ≡ u
  jump-inj t u r h k = ground (arith, h, k)

  final≢jump : (e : End) (t : Text) (r : Round) → r ≡ final e → r ≢ jump t
  final≢jump nothing t r h k = cc (sym h ∙ k)
  final≢jump (defined d) t r h k = cc (sym h ∙ k)
  final≢jump opaque_alias t r h k = cc (sym h ∙ k)

  final-inj : (e f : End) → final e ≡ final f → e ≡ f
  final-inj nothing nothing h = refl
  final-inj (defined d) (defined d') h = ground (arith, h)
  final-inj opaque_alias opaque_alias h = refl
  final-inj _ _ h = ground (arith, h)

  pub Leads-unique :
      (s : Text) (xs ys : List Text) (e f : End) → Leads s xs e → Leads s ys f → (xs ≡ ys) × (e ≡ f)
  Leads-unique s xs ys e f (stop _ _ h) (stop _ _ k) = (refl, final-inj e f (sym h ∙ k))
  Leads-unique s xs ys e f (stop _ _ h) (hop _ t _ _ k rest) =
      absurd (final≢jump e t (look ds s) h k)
  Leads-unique s xs ys e f (hop _ t _ _ k rest) (stop _ _ h) =
      absurd (final≢jump f t (look ds s) h k)
  Leads-unique s xs ys e f (hop _ t xs' _ h rest) (hop _ u ys' _ k rest') =
      let same = jump-inj t u (look ds s) h k in
      let (tails, ends) = Leads-unique u xs' ys' e f (subst (λ x. Leads x xs' e) same rest) rest' in
      (ap (λ x. s ∷ x) tails, ends)

  -- A chain that ends still ends after some of its aliases, and is that much shorter.
  Leads-Hops :
      (k : ℕ) (s t : Text) (xs : List Text) (e : End)
      → Leads s xs e
      → Hops k s t
      → (ys : List Text) × Leads t ys e × (length xs ≡ k + length ys)
  Leads-Hops zero s t xs e chain same = (xs, subst (λ x. Leads x xs e) same chain, omega arith)
  Leads-Hops (suc k) s t xs e (stop _ _ h) (u, at, rest) = absurd (final≢jump e u (look ds s) h at)
  Leads-Hops (suc k) s t xs e (hop _ v xs' _ h chain) (u, at, rest) =
      let same = jump-inj v u (look ds s) h at in
      let (ys, tail, shorter) =
        Leads-Hops k u t xs' e (subst (λ x. Leads x xs' e) same chain) rest in
      (ys, tail, omega (arith, shorter))

  -- A chain that ends does not run into a cycle.
  pub Leads-acyclic :
      (j k : ℕ) (s t : Text) (xs : List Text) (e : End)
      → Leads s xs e
      → Hops j s t
      → ¬ (Hops (suc k) t t)
  Leads-acyclic j k s t xs e chain reach loop =
      let (ys, tail, _) = Leads-Hops j s t xs e chain reach in
      let (zs, again, longer) = Leads-Hops (suc k) t t ys e tail loop in
      let (same, _) = Leads-unique t ys zs e e tail again in omega (arith, longer, ap length same)

abbrev pub evidence_at : LlvmModuleRecord → InstanceRef → List Text → End → ModuleEvidence
evidence_at m reference aliases nothing = absent
evidence_at m reference aliases (defined d) = body (body_of m reference aliases d)
evidence_at m reference aliases opaque_alias = unsupported
